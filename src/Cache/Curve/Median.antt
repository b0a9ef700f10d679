-- ===== src/Cache/Curve/Median.antt =====
-- common/cache/cache_curve.cpp: plateau_median, beside a description of the median.
use mathlib.Core.List.{Permᴰ}
use mathlib.Core.List.Permᴰ
use cpufb.Base.{
  ℕ, zero, suc, ◌+◌, ◌-◌, ◌*◌, ◌/◌, ◌%◌, ◌≡◌, ◌<◌, ◌⊎◌, inl, inr, refl, sym, ap, ◌∙◌, List, [], ◌∷◌,
  some, true, false, ◌==◌, arith, length, get_elem?, All, Bool-cases, ==→eq,
}
use cpufb.Doubles.{Doubles}
use cpufb.Cache.Curve.{put_sorted, sorted, median_of, all_positive, plateau_median}

pub get_elem?-some {ℓ} :
    {A : Type ℓ} (xs : List A) (i : ℕ) → i < length xs → (x : A) × (get_elem? xs i ≡ some x)
get_elem?-some [] i h = absurd (omega (arith, h))
get_elem?-some (x ∷ xs) zero h = (x, refl)
get_elem?-some (x ∷ xs) (suc i) h = get_elem?-some xs i (omega (arith, h))

module _ {ℓ} {F : Type ℓ} (fl : Doubles F) where
  -- The first is not above the second.
  abbrev pub InOrder : F → F → Type 0
  InOrder x y = (fl.less y x ≡ false) ⊎ (fl.less x y ≡ true)

  -- Neighbours are in order.
  abbrev pub Ascending : List F → Type 0
  Ascending [] = Unit
  Ascending (x ∷ []) = Unit
  Ascending (x ∷ y ∷ ys) = InOrder x y × Ascending (y ∷ ys)

  -- What stands in the middle of a list: the one there, or half the sum of the two there.
  pub data InMiddle (ys : List F) (m : F) : Type ℓ where
    odd : (k : ℕ) → length ys ≡ 2 * k + 1 → get_elem? ys k ≡ some m → InMiddle ys m
    even :
        (k : ℕ) (a b : F)
        → length ys ≡ 2 * (k + 1)
        → get_elem? ys k ≡ some a
        → get_elem? ys (k + 1) ≡ some b
        → m ≡ fl.divide (fl.plus a b) (fl.literal 2)
        → InMiddle ys m

  -- The median of values that are all above 0: the values in ascending order have it in the middle.
  -- It is 0 where one is not above 0.
  pub data IsMedian (xs : List F) (m : F) : Type ℓ where
    middle :
        (ys : List F)
        → All (λ x. fl.less (fl.literal 0) x ≡ true) xs
        → Permᴰ xs ys
        → Ascending ys
        → InMiddle ys m
        → IsMedian xs m
    missing :
        (i : ℕ) (x : F)
        → get_elem? xs i ≡ some x
        → fl.less (fl.literal 0) x ≡ false
        → m ≡ fl.literal 0
        → IsMedian xs m

  length-put_sorted : (x : F) (ys : List F) → length (put_sorted fl x ys) ≡ suc (length ys)
  unfolding put_sorted
  length-put_sorted x [] = refl
  length-put_sorted x (y ∷ ys) = elim (Bool-cases (fl.less y x)) [
    | inl e ↦ rw e (ap suc (length-put_sorted x ys))
    | inr e ↦ rw e refl
  ]

  length-sorted : (xs : List F) → length (sorted fl xs) ≡ length xs
  unfolding sorted
  length-sorted [] = refl
  length-sorted (x ∷ xs) = length-put_sorted x (sorted fl xs) ∙ ap suc (length-sorted xs)

  put_sorted-Permᴰ : (x : F) (ys : List F) → Permᴰ (x ∷ ys) (put_sorted fl x ys)
  unfolding put_sorted
  put_sorted-Permᴰ x [] = Permᴰ.refl (x ∷ [])
  put_sorted-Permᴰ x (y ∷ ys) = elim (Bool-cases (fl.less y x)) [
    | inl e ↦ rw e (
        Permᴰ.trans (Permᴰ.swap {a = x} {b = y} {l = ys} refl refl)
          (Permᴰ.cons refl (put_sorted-Permᴰ x ys)))
    | inr e ↦ rw e (Permᴰ.refl (x ∷ y ∷ ys))
  ]

  sorted-Permᴰ : (xs : List F) → Permᴰ xs (sorted fl xs)
  unfolding sorted
  sorted-Permᴰ [] = Permᴰ.nil
  sorted-Permᴰ (x ∷ xs) =
      Permᴰ.trans (Permᴰ.cons refl (sorted-Permᴰ xs)) (put_sorted-Permᴰ x (sorted fl xs))

  behind-Ascending :
      (x y : F) (ys : List F)
      → InOrder y x
      → Ascending (y ∷ ys)
      → Ascending (y ∷ put_sorted fl x ys)
  unfolding put_sorted
  behind-Ascending x y [] h v = (h, tt)
  behind-Ascending x y (z ∷ zs) h v = elim (Bool-cases (fl.less z x)) [
    | inl e ↦ rw e (v.0, behind-Ascending x z zs (inr e) v.1)
    | inr e ↦ rw e (h, (inl e, v.1))
  ]

  put_sorted-Ascending : (x : F) (ys : List F) → Ascending ys → Ascending (put_sorted fl x ys)
  unfolding put_sorted
  put_sorted-Ascending x [] v = tt
  put_sorted-Ascending x (y ∷ ys) v = elim (Bool-cases (fl.less y x)) [
    | inl e ↦ rw e (behind-Ascending x y ys (inr e) v)
    | inr e ↦ rw e (inl e, v)
  ]

  sorted-Ascending : (xs : List F) → Ascending (sorted fl xs)
  unfolding sorted
  sorted-Ascending [] = tt
  sorted-Ascending (x ∷ xs) = put_sorted-Ascending x (sorted fl xs) (sorted-Ascending xs)

  positive-All :
      (xs : List F) → all_positive fl xs ≡ true → All (λ x. fl.less (fl.literal 0) x ≡ true) xs
  unfolding all_positive
  positive-All [] h = tt
  positive-All (x ∷ xs) h = elim (Bool-cases (fl.less (fl.literal 0) x)) [
    | inl e ↦ (e, positive-All xs (sym (rw e refl) ∙ h))
    | inr e ↦ absurd (ground (arith, e, h))
  ]

  not_positive :
      (xs : List F)
      → all_positive fl xs ≡ false
      → (i : ℕ) × (x : F) × (get_elem? xs i ≡ some x) × (fl.less (fl.literal 0) x ≡ false)
  unfolding all_positive
  not_positive [] h = cc
  not_positive (x ∷ xs) h = elim (Bool-cases (fl.less (fl.literal 0) x)) [
    | inl e ↦ let (i, y, at, n) = not_positive xs (sym (rw e refl) ∙ h) in (suc i, y, at, n)
    | inr e ↦ (zero, x, refl, e)
  ]

  median_of-InMiddle :
      (x : F) (xs : List F)
      → (m : F) × (median_of fl (x ∷ xs) ≡ some m) × InMiddle (sorted fl (x ∷ xs)) m
  unfolding median_of
  median_of-InMiddle x xs =
      let values = sorted fl (x ∷ xs) in
      let size : length values ≡ suc (length xs) = length-sorted (x ∷ xs) in
      let k = length values / 2 in
      let (below, b) = get_elem?-some values (k - 1) (omega (arith, size)) in
      let (here, m) = get_elem?-some values k (omega (arith, size)) in
      elim (Bool-cases (length values % 2 == 0)) [
        | inl e ↦
            let half : length values % 2 ≡ 0 = ==→eq (length values % 2) 0 e in
            (
              fl.divide (fl.plus below here) (fl.literal 2),
              rw (e, b, m) refl,
              even (k - 1) below here (omega (arith, size, half)) b
                  (ap (get_elem? values) {x = k - 1 + 1} {y = k} (omega (arith, size, half)) ∙ m)
                  refl,
            )
        | inr e ↦ (here, rw e m, odd k (ground (arith, e)) m)
      ]

  -- The median of a plateau with a point is there, and is one.
  pub plateau_median-IsMedian :
      (x : F) (xs : List F) → (m : F) × (plateau_median fl (x ∷ xs) ≡ some m) × IsMedian (x ∷ xs) m
  unfolding plateau_median
  plateau_median-IsMedian x xs = elim (Bool-cases (all_positive fl (x ∷ xs))) [
    | inl e ↦
        let (m, f, v) = median_of-InMiddle x xs in
        (
          m,
          rw e f,
          middle (sorted fl (x ∷ xs)) (positive-All (x ∷ xs) e) (sorted-Permᴰ (x ∷ xs))
              (sorted-Ascending (x ∷ xs)) v,
        )
    | inr e ↦
        let (i, y, at, n) = not_positive (x ∷ xs) e in
        (fl.literal 0, rw e refl, missing i y at n refl)
  ]
