-- ===== src/Cache/Region.antt =====
-- common/cache/cache_curve.cpp: the size of the region that is mapped, and the lines that are visited
-- together. What the operating system says of memory and pages is an argument.
use native.Mathlib.Nat.{pow-succ'}
use cpufb.Base.{
  ℕ, zero, suc, ◌+◌, ◌*◌, ◌/◌, ◌^◌, ◌≤◌, ◌<◌, ◌≡◌, ◌⊎◌, inl, refl, ap, subst, Bool, not, ◌&&◌, leb,
  ltb, ◌==◌, if◌then◌else◌, max, u64, arith,
}

abbrev pub memory_reference_bytes : ℕ
memory_reference_bytes = 1073741824

-- A round of the loop in front of the others, `rest`.
abbrev pub round : ℕ → ℕ → ℕ → ℕ → ℕ
round available max_bytes region rest =
    if leb (u64 (max_bytes * 2)) region
    then if leb region (available / 4) then max max_bytes region else rest
    else max_bytes

-- The loop from a region on. The first argument is the fuel.
unfoldable pub choose_from : ℕ → ℕ → ℕ → ℕ → ℕ
choose_from zero available max_bytes region = max_bytes
choose_from (suc fuel) available max_bytes region =
    round available max_bytes region (choose_from fuel available max_bytes (region / 2))

-- `available` is 0 where the operating system does not say.
unfoldable pub choose_region_bytes : ℕ → ℕ → ℕ
unfolding choose_from
choose_region_bytes available max_bytes =
    let chosen = choose_from 32 available max_bytes memory_reference_bytes in
    if available == 0 then max max_bytes memory_reference_bytes else chosen

-- `page_bytes` is the size of a page, and `no_groups` that the environment forbids groups. The text
-- that names the mode is left out.
unfoldable pub ring_group_lines : ℕ → Bool → ℕ → Bool → ℕ
ring_group_lines page_bytes no_groups line huge_pages =
    if not huge_pages && ltb page_bytes (16 * 1024) && not no_groups
    then max 1 (page_bytes / line)
    else 0

module _ (available max_bytes : ℕ) where
  -- The result is the bound, or a region that a quarter of the memory holds.
  Chosen : ℕ → ℕ → Type 0
  Chosen region n = (n ≡ max_bytes) ⊎ ((max_bytes ≤ n) × (n ≤ region) × (n ≤ available / 4))

  choose_from-Chosen :
      (fuel region : ℕ)
      → max_bytes < 2 ^ 63
      → Chosen region (choose_from fuel available max_bytes region)
  unfolding choose_from Chosen
  choose_from-Chosen zero region h = inl refl
  choose_from-Chosen (suc fuel) region h = ground (arith, choose_from-Chosen fuel (region / 2) h)

  -- At a region of 0 the loop ends, whatever the fuel.
  choose_from-fuel :
      (fuel more region : ℕ)
      → region < 2 ^ fuel
      → choose_from (suc fuel) available max_bytes region
        ≡ choose_from (suc (fuel + more)) available max_bytes region
  unfolding choose_from
  choose_from-fuel zero more region h = ground arith
  choose_from-fuel (suc fuel) more region h =
      let half : region / 2 < 2 ^ fuel = omega (arith, pow-succ' 2 fuel, h) in
      let same = choose_from-fuel fuel more (region / 2) half in
      subst
        (λ n.
          choose_from (suc (suc fuel)) available max_bytes region
          ≡ choose_from (suc n) available max_bytes region)
        {x = suc (fuel + more)} (omega arith) (ap (round available max_bytes region) same)

more_rounds :
    (available max_bytes more : ℕ)
    → choose_from 32 available max_bytes memory_reference_bytes
      ≡ choose_from (32 + more) available max_bytes memory_reference_bytes
more_rounds available max_bytes more =
    subst
      (λ n.
        choose_from 32 available max_bytes memory_reference_bytes
        ≡ choose_from n available max_bytes memory_reference_bytes)
      {x = suc (31 + more)} (omega arith)
      (choose_from-fuel available max_bytes 31 more memory_reference_bytes (omega arith))

-- The region holds the largest working set; where it is larger than this, it is at most 1 GiB, and
-- at most a quarter of the memory if the operating system says how much there is. The loop ends
-- within its rounds: more of them give no other region.
pub choose_region_bytes-max :
    (available max_bytes : ℕ)
    → max_bytes < 2 ^ 63
    → (max_bytes ≤ choose_region_bytes available max_bytes)
      × ((choose_region_bytes available max_bytes ≡ max_bytes)
          ⊎ ((choose_region_bytes available max_bytes ≤ memory_reference_bytes)
              × ((available ≡ 0) ⊎ (choose_region_bytes available max_bytes ≤ available / 4))))
      × ((more : ℕ)
          → choose_from 32 available max_bytes memory_reference_bytes
            ≡ choose_from (32 + more) available max_bytes memory_reference_bytes)
unfolding choose_region_bytes Chosen
choose_region_bytes-max available max_bytes h =
    let chosen = choose_from-Chosen available max_bytes 32 memory_reference_bytes h in
    (ground (arith, chosen), ground (arith, chosen), λ more. more_rounds available max_bytes more)
