-- ===== src/Cache/Grid.antt =====
-- common/cache/cache_curve.cpp: build_cache_curve_sizes, the sizes at which the latency is sampled.
use native.Mathlib.Nat.{pow-succ', mul_assoc}
use cpufb.Base.{
  ℕ, zero, suc, ◌+◌, ◌*◌, ◌/◌, ◌%◌, ◌^◌, ◌≤◌, ◌<◌, ◌≡◌, refl, ap, sym, subst, ◌∙◌, false, List, [],
  ◌∷◌, leb, if◌then◌else◌, u64, All, arith, Bool-cases, inl, inr,
}

-- The body of the inner loop, in front of what the rest gives.
unfoldable pub put : ℕ → ℕ → List ℕ → List ℕ
put max_bytes size rest = if leb size max_bytes then size ∷ rest else rest

-- The outer loop from a base on. The first argument is the fuel.
unfoldable pub sizes_from : ℕ → ℕ → ℕ → List ℕ
unfolding put
sizes_from zero base max_bytes = []
sizes_from (suc fuel) base max_bytes =
    let rest = sizes_from fuel (u64 (base * 2)) max_bytes in
    let quarter = base / 4 in
    if leb base max_bytes
    then put max_bytes (quarter * 4) (
        put max_bytes (quarter * 5)
          (put max_bytes (quarter * 6) (put max_bytes (quarter * 7) rest)))
    else []

unfoldable pub build_cache_curve_sizes : ℕ → List ℕ
unfolding sizes_from
build_cache_curve_sizes max_bytes = sizes_from 64 (4 * 1024) max_bytes

-- Ascending without repetition, from a bound on.
abbrev pub Ascends : ℕ → List ℕ → Type 0
Ascends low [] = Unit
Ascends low (x ∷ xs) = (low ≤ x) × Ascends (suc x) xs

Ascends-lower : (low high : ℕ) (xs : List ℕ) → low ≤ high → Ascends high xs → Ascends low xs
Ascends-lower low high [] h a = tt
Ascends-lower low high (x ∷ xs) h a = (omega (arith, a.0), a.1)

put-Ascends :
    (max_bytes low size : ℕ) (rest : List ℕ)
    → low ≤ size
    → Ascends (suc size) rest
    → Ascends low (put max_bytes size rest)
unfolding put
put-Ascends max_bytes low size rest h a = elim (Bool-cases (leb size max_bytes)) [
  | inl e ↦ rw e (h, a)
  | inr e ↦ rw e (Ascends-lower low (suc size) rest (omega arith) a)
]

put-All :
    (max_bytes size : ℕ) (rest : List ℕ)
    → All (λ x. x ≤ max_bytes) rest
    → All (λ x. x ≤ max_bytes) (put max_bytes size rest)
unfolding put
put-All max_bytes size rest a = ground arith

module _ (max_bytes : ℕ) (small : max_bytes < 2 ^ 63) where
  sizes_from-Ascends :
      (fuel base : ℕ)
      → 0 < base
      → base % 4 ≡ 0
      → base < 2 ^ 64
      → Ascends base (sizes_from fuel base max_bytes)
  unfolding sizes_from
  sizes_from-Ascends zero base p m h = tt
  sizes_from-Ascends (suc fuel) base p m h = elim (Bool-cases (leb base max_bytes)) [
    | inr e ↦ rw e tt
    | inl e ↦
        let fits : base ≤ max_bytes = ground arith in
        let double : u64 (base * 2) ≡ base * 2 = omega arith in
        let rest = sizes_from-Ascends fuel (base * 2) (omega arith) (omega arith) (omega arith) in
        let q = base / 4 in
        rw (e, double)
          (put-Ascends max_bytes base (q * 4) _ (omega arith) (
            put-Ascends max_bytes (suc (q * 4)) (q * 5) _ (omega arith) (
              put-Ascends max_bytes (suc (q * 5)) (q * 6) _ (omega arith) (
                put-Ascends max_bytes (suc (q * 6)) (q * 7) _ (omega arith)
                  (Ascends-lower (suc (q * 7)) (base * 2) _ (omega arith) rest)))))
  ]

  sizes_from-All : (fuel base : ℕ) → All (λ x. x ≤ max_bytes) (sizes_from fuel base max_bytes)
  unfolding sizes_from
  sizes_from-All zero base = tt
  sizes_from-All (suc fuel) base = elim (Bool-cases (leb base max_bytes)) [
    | inr e ↦ rw e tt
    | inl e ↦ rw e (
        put-All max_bytes _ _ (
          put-All max_bytes _ _
            (put-All max_bytes _ _ (put-All max_bytes _ _ (sizes_from-All fuel (u64 (base * 2)))))))
  ]

  sizes_from-past : (fuel base : ℕ) → max_bytes < base → sizes_from fuel base max_bytes ≡ []
  unfolding sizes_from
  sizes_from-past zero base h = refl
  sizes_from-past (suc fuel) base h =
      let past : leb base max_bytes ≡ false = ground arith in rw past refl

  doubled_power : (base fuel : ℕ) → base * 2 ^ suc fuel ≡ base * 2 * 2 ^ fuel
  doubled_power base fuel =
      ap (λ k. base * k) (pow-succ' 2 fuel) ∙ sym (mul_assoc base 2 (2 ^ fuel))

  -- More fuel changes nothing once the base is past the bound.
  sizes_from-fuel :
      (fuel more base : ℕ)
      → max_bytes < base * 2 ^ fuel
      → sizes_from fuel base max_bytes ≡ sizes_from (fuel + more) base max_bytes
  unfolding sizes_from
  sizes_from-fuel zero more base h = sym (sizes_from-past (0 + more) base (omega arith))
  sizes_from-fuel (suc fuel) more base h = elim (Bool-cases (leb base max_bytes)) [
    | inr e ↦ rw e (sym (sizes_from-past (suc fuel + more) base (ground arith)))
    | inl e ↦
        let fits : base ≤ max_bytes = ground arith in
        let double : u64 (base * 2) ≡ base * 2 = omega arith in
        let same =
          sizes_from-fuel fuel more (base * 2)
            (subst (λ k. max_bytes < k) (doubled_power base fuel) h) in
        subst (λ n. sizes_from (suc fuel) base max_bytes ≡ sizes_from n base max_bytes)
          {x = suc (fuel + more)} (omega arith) (rw (e, double, same) refl)
  ]

-- For a bound below 2^63 the sizes ascend from 4 KiB to the bound without repetition, and the loop
-- ends within its 64 rounds: more of them give no other sizes.
pub build_cache_curve_sizes-Ascends :
    (max_bytes : ℕ)
    → max_bytes < 2 ^ 63
    → Ascends 4096 (build_cache_curve_sizes max_bytes)
      × All (λ size. size ≤ max_bytes) (build_cache_curve_sizes max_bytes)
      × ((more : ℕ) → build_cache_curve_sizes max_bytes ≡ sizes_from (64 + more) 4096 max_bytes)
unfolding build_cache_curve_sizes
build_cache_curve_sizes-Ascends max_bytes h = (
  sizes_from-Ascends max_bytes h 64 4096 (omega arith) (omega arith) (omega arith),
  sizes_from-All max_bytes h 64 4096,
  λ more. sizes_from-fuel max_bytes h 64 more 4096 (omega arith),
)
