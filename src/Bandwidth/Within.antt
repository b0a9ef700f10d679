-- ===== src/Bandwidth/Within.antt =====
-- common/cache/memory_bandwidth.cpp: the bounds of the streams over the L3.
use native.Mathlib.Nat.{
  add-mul-mod_self_right, div-add-mod', zero-mod, div-mul-le_self, mul-le-mul_right,
}
use cpufb.Base.{
  ℕ, ◌+◌, ◌-◌, ◌*◌, ◌/◌, ◌%◌, ◌≡◌, ◌⊎◌, inl, inr, ◌≤◌, ◌<◌, sym, ap, subst, ◌∙◌, List, [], ◌∷◌,
  none, some, ◌||◌, ltb, leb, ◌==◌, ==→eq, if◌then◌else◌, max, arith, length, All, Bool-cases,
  bind-some,
}
use cpufb.Cache.Levels.{CacheLevelInfo}
use cpufb.Bandwidth.Workset.{
  Workset, l3_candidate, select_l3_workset, largest_l2, cap_to_measured_level, shared_workset,
  select_parallel_l3_workset,
}

pub blocks-whole : (n block : ℕ) → (n - n % block) % block ≡ 0
blocks-whole n block =
    ap (◌% block) {x = n - n % block} {y = 0 + n / block * block}
      (omega (arith, div-add-mod' n block))
    ∙ add-mul-mod_self_right 0 (n / block) block
    ∙ zero-mod block

-- Three quarters of a measured level in whole blocks.
abbrev pub measured_cap : ℕ → ℕ → ℕ
measured_cap measured block = let c = measured - measured / 4 in c - c % block

cap_to_measured_level-le :
    (measured block : ℕ) (w : Workset)
    → w.bytes % block ≡ 0
    → let capped = cap_to_measured_level measured block w in
      (capped.bytes ≤ w.bytes)
      × (capped.bytes % block ≡ 0)
      × ((measured_cap measured block ≡ 0) ⊎ (capped.bytes ≤ measured_cap measured block))
unfolding cap_to_measured_level
cap_to_measured_level-le measured block w whole = elim (Bool-cases (measured == 0)) [
  | inl z ↦ rw z (omega arith, whole, inl (omega (arith, ==→eq measured 0 z)))
  | inr z ↦
      elim (Bool-cases
        (measured_cap measured block == 0 || leb w.bytes (measured_cap measured block))) [
          | inl small ↦ rw (z, small) (omega arith, whole, ground arith)
          | inr large ↦ rw (z, large) (ground arith, blocks-whole _ block, inr (omega arith))
        ]
]

-- What the streams keep to: whole blocks, not none of them; above every L2 of the CPUs; below the L3
-- of the first CPU, all streams together; and within three quarters of the level that was measured,
-- unless that is not one block.
pub record Within (levels : ℕ → ℕ → CacheLevelInfo) (first : ℕ) (cpus : List ℕ) (block measured : ℕ)
    (w : Workset) : Type 0 where
  pub whole : w.bytes % block ≡ 0
  pub above : All (λ cpu. (levels cpu 2).bytes < w.bytes) cpus
  pub below : w.bytes * length cpus < (levels first 3).bytes
  pub capped : (measured_cap measured block ≡ 0) ⊎ (w.bytes ≤ measured_cap measured block)

l3_candidate-whole : (l3 l2 block : ℕ) → l3_candidate l3 l2 block % block ≡ 0
unfolding l3_candidate
l3_candidate-whole l3 l2 block = blocks-whole _ block

select_l3_workset-Within :
    (levels : ℕ → ℕ → CacheLevelInfo) (cpu block : ℕ) (w : Workset)
    → select_l3_workset levels cpu block ≡ some w
    → (w.bytes % block ≡ 0) × (w.bytes < (levels cpu 3).bytes)
unfolding select_l3_workset
select_l3_workset-Within levels cpu block w e =
    let candidate = l3_candidate (levels cpu 3).bytes (levels cpu 2).bytes block in
    let whole : candidate % block ≡ 0 =
      l3_candidate-whole (levels cpu 3).bytes (levels cpu 2).bytes block in
    let found : (w.bytes ≡ candidate) × (candidate < (levels cpu 3).bytes) = ground (arith, e) in
    (ap (◌% block) found.0 ∙ whole, omega (arith, found.0, found.1))

largest_l2-max :
    (levels : ℕ → ℕ → CacheLevelInfo) (largest bytes : ℕ) (cpus : List ℕ)
    → largest_l2 levels largest cpus < bytes
    → (largest < bytes) × All (λ cpu. (levels cpu 2).bytes < bytes) cpus
unfolding largest_l2
largest_l2-max levels largest bytes [] h = (h, tt)
largest_l2-max levels largest bytes (cpu ∷ cpus) h =
    let (here, rest) = largest_l2-max levels (max largest (levels cpu 2).bytes) bytes cpus h in
    (omega (arith, here), (omega (arith, here), rest))

shared_workset-Within :
    (levels : ℕ → ℕ → CacheLevelInfo) (first : ℕ) (cpus : List ℕ) (block measured aggregate : ℕ)
    (w : Workset)
    → aggregate < (levels first 3).bytes
    → shared_workset levels first cpus block measured aggregate ≡ some w
    → Within levels first cpus block measured w
unfolding shared_workset
shared_workset-Within levels first cpus block measured aggregate w below e =
    let share = aggregate / length cpus in
    let per_stream : Workset = record { bytes = share - share % block; source = [] } in
    let capped = cap_to_measured_level measured block per_stream in
    let (less, whole, cap) =
      cap_to_measured_level-le measured block per_stream (blocks-whole share block) in
    let found : (w.bytes ≡ capped.bytes) × (largest_l2 levels 0 cpus < capped.bytes) =
      ground (arith, e) in
    let shares : w.bytes * length cpus ≤ share * length cpus =
      mul-le-mul_right (length cpus) (omega (arith, found.0, less)) in
    let fits : share * length cpus ≤ aggregate = div-mul-le_self aggregate (length cpus) in
    record {
      whole = ap (◌% block) found.0 ∙ whole;
      above =
          subst (λ b. All (λ cpu. (levels cpu 2).bytes < b) cpus) (sym found.0)
            (largest_l2-max levels 0 capped.bytes cpus found.1).1;
      below = omega (arith, shares, fits, below);
      capped =
          subst (λ b. (measured_cap measured block ≡ 0) ⊎ (b ≤ measured_cap measured block))
            (sym found.0) cap;
    }

single_workset-Within :
    (levels : ℕ → ℕ → CacheLevelInfo) (cpu block measured : ℕ) (aggregate w : Workset)
    → aggregate.bytes % block ≡ 0
    → aggregate.bytes < (levels cpu 3).bytes
    → (if ltb (levels cpu 2).bytes (cap_to_measured_level measured block aggregate).bytes
        then some (cap_to_measured_level measured block aggregate)
        else none)
      ≡ some w
    → Within levels cpu (cpu ∷ []) block measured w
single_workset-Within levels cpu block measured aggregate w blocks below e =
    let capped = cap_to_measured_level measured block aggregate in
    let (less, whole, cap) = cap_to_measured_level-le measured block aggregate blocks in
    let found : (w.bytes ≡ capped.bytes) × ((levels cpu 2).bytes < capped.bytes) =
      ground (arith, e) in
    record {
      whole = ap (◌% block) found.0 ∙ whole;
      above = (omega (arith, found.0, found.1), tt);
      below = omega (arith, found.0, less, below);
      capped =
          subst (λ b. (measured_cap measured block ≡ 0) ⊎ (b ≤ measured_cap measured block))
            (sym found.0) cap;
    }

-- What select_parallel_l3_workset chooses for a pool, when it chooses: a stream of whole blocks that
-- is larger than every L2 of the pool, all streams together smaller than the L3 of the first CPU, and
-- each within three quarters of the level that was measured, unless that is not one block.
pub select_parallel_l3_workset-Within :
    (levels : ℕ → ℕ → CacheLevelInfo) (first : ℕ) (cpus : List ℕ) (block measured : ℕ) (w : Workset)
    → select_parallel_l3_workset levels (first ∷ cpus) block measured ≡ some w
    → Within levels first (first ∷ cpus) block measured w
unfolding select_parallel_l3_workset
select_parallel_l3_workset-Within levels first [] block measured w e =
    let (aggregate, s, f) = bind-some (select_l3_workset levels first block) _ w e in
    let (blocks, below) = select_l3_workset-Within levels first block aggregate s in
    single_workset-Within levels first block measured aggregate w blocks below f
select_parallel_l3_workset-Within levels first (next ∷ cpus) block measured w e =
    let (aggregate, s, f) = bind-some (select_l3_workset levels first block) _ w e in
    let (blocks, below) = select_l3_workset-Within levels first block aggregate s in
    shared_workset-Within levels first (first ∷ next ∷ cpus) block measured aggregate.bytes w below
      f
