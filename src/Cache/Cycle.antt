-- ===== src/Cache/Cycle.antt =====
-- common/cache/cache_curve.cpp: the lines that build_ring_order visits.
use mathlib.Core.List.{Perm, Permᴰ}
use mathlib.Core.List.Perm
use mathlib.Core.Logic.{∥∥₁_elim}
use cpufb.Base.{
  ==→eq, ℕ, zero, suc, ◌+◌, ◌-◌, ◌/◌, ◌^◌, ◌≡◌, ◌<◌, refl, sym, ap, ◌∙◌, subst, List, [], ◌∷◌, ◌++◌,
  ◌==◌, ◌||◌, u64, arith, append-nil, append_assoc, Bool, true, false,
}
use cpufb.Cache.Ring.{iota, rotate, group_size, group_of, append_groups, build_ring_order}
use mathlib.Core.Bool.{Bool-set}
use cpufb.Cache.Groups.{rotate-Perm, all_lines, all_lines-Perm, group_size-bounds, groups-span}

has_zero : List ℕ → Bool
has_zero [] = false
has_zero (line ∷ lines) = line == 0 || has_zero lines

has_zero-Permᴰ : {xs ys : List ℕ} → Permᴰ xs ys → has_zero xs ≡ has_zero ys
unfolding has_zero
has_zero-Permᴰ Permᴰ.nil = refl
has_zero-Permᴰ (Permᴰ.cons {b = b} e d) = rw (e, has_zero-Permᴰ d) refl
has_zero-Permᴰ (Permᴰ.swap {a' = c} {b' = d} {l = l} e f) = rw (e, f) (ground arith)
has_zero-Permᴰ (Permᴰ.trans d₁ d₂) = has_zero-Permᴰ d₁ ∙ has_zero-Permᴰ d₂

has_zero-Perm : {xs ys : List ℕ} → Perm xs ys → has_zero xs ≡ has_zero ys
has_zero-Perm {xs} {ys} p = ∥∥₁_elim p (Bool-set (has_zero xs) (has_zero ys)) has_zero-Permᴰ

-- What starts with 0.
starts : List ℕ → Bool
starts [] = false
starts (line ∷ lines) = line == 0

rotate-starts : (front lines : List ℕ) → has_zero lines ≡ true → starts (rotate front lines) ≡ true
unfolding rotate has_zero starts
rotate-starts front [] h = cc
rotate-starts front (line ∷ lines) h = ground (arith, rotate-starts (front ++ line ∷ []) lines)

has_zero-iota : (n : ℕ) → 0 < n → has_zero (iota 0 n) ≡ true
unfolding has_zero iota
has_zero-iota zero p = absurd (omega (arith, p))
has_zero-iota (suc n) p = refl

starts-cons : (xs : List ℕ) → starts xs ≡ true → (rest : List ℕ) × (xs ≡ 0 ∷ rest)
unfolding starts
starts-cons [] h = cc
starts-cons (x ∷ xs) h = (xs, ap (λ k. k ∷ xs) (==→eq x 0 h))

module _ {ℓ} {R : Type ℓ} (shuffle : R → List ℕ → R × List ℕ)
    (permutes : (random : R) (xs : List ℕ) → Perm (shuffle random xs).1 xs) where
  append_groups-Perm :
      (n size : ℕ) (random : R) (order groups : List ℕ)
      → Perm (append_groups shuffle n size random order groups) (order ++ all_lines n size groups)
  unfolding append_groups all_lines
  append_groups-Perm n size random order [] =
      subst (λ l. Perm order l) (sym (append-nil order)) (Perm.refl order)
  append_groups-Perm n size random order (group ∷ groups) =
      let shuffled = shuffle random (group_of n size group) in
      Perm.trans (append_groups-Perm n size shuffled.0 (order ++ shuffled.1) groups) (
        subst (λ l. Perm l (order ++ (group_of n size group ++ all_lines n size groups)))
          (sym (append_assoc order shuffled.1 (all_lines n size groups)))
          (Perm.append_left order (
            Perm.append_right (all_lines n size groups) (permutes random (group_of n size group)))))

  groups-Perm :
      (n g : ℕ) (random : R)
      → 0 < n
      → n < 2 ^ 62
      → let size = group_size n g in
        let groups = shuffle random (iota 0 (u64 (n + size - 1) / size)) in
        Perm (append_groups shuffle n size groups.0 [] groups.1) (iota 0 n)
  groups-Perm n g random p b =
      let size = group_size n g in
      let bounds = group_size-bounds n g p in
      let count = u64 (n + size - 1) / size in
      let groups = shuffle random (iota 0 count) in
      Perm.trans (append_groups-Perm n size groups.0 [] groups.1) (
        subst (λ l. Perm (all_lines n size groups.1) l) (groups-span n size p b bounds.0 bounds.1)
          (all_lines-Perm n size (permutes random (iota 0 count))))

  -- With a shuffle that permutes, the order on fewer than 2^62 lines starts at line 0 and holds every
  -- line once.
  pub build_ring_order-Perm :
      (line_count group_lines : ℕ) (random : R)
      → 0 < line_count
      → line_count < 2 ^ 62
      → (rest : List ℕ) × (build_ring_order shuffle line_count group_lines random ≡ 0 ∷ rest)
        × Perm (0 ∷ rest) (iota 0 line_count)
  unfolding build_ring_order
  build_ring_order-Perm n g random p b =
      let size = group_size n g in
      let groups = shuffle random (iota 0 (u64 (n + size - 1) / size)) in
      let order = append_groups shuffle n size groups.0 [] groups.1 in
      let perm : Perm order (iota 0 n) = groups-Perm n g random p b in
      let (rest, e) =
        starts-cons (rotate [] order)
          (rotate-starts [] order (has_zero-Perm perm ∙ has_zero-iota n p)) in
      (rest, e, subst (λ l. Perm l (iota 0 n)) e (Perm.trans (rotate-Perm [] order) perm))
