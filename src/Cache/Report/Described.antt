-- ===== src/Cache/Report/Described.antt =====
-- common/cache/cache_report.cpp: what a report says of the levels of a curve, without the loop of assign_curve.
use cpufb.Base.{
  ℕ, ◌/◌, ◌≡◌, ◌%◌, refl, List, [], ◌∷◌, ◌++◌, Option, none, some, false, Bytes, codes, ◌==◌,
  Bool-cases, inl, inr,
}
use cpufb.Text.Bytes.{is_empty}
use cpufb.Integers.{ℤ, pos}
use cpufb.Doubles.{Doubles}
use cpufb.Cache.Sizes.{format_cache_capacity}
use cpufb.Cache.Curve.{CacheLevelEstimate}
use cpufb.Cache.Report.Doubt.{describe_transition}
use cpufb.Cache.Report.{join_note}

-- The text is not empty, and neither is one with such a text at its end.
append-nonempty : (s : Bytes) (c : ℕ) (t : Bytes) → is_empty (s ++ c ∷ t) ≡ false
unfolding is_empty
append-nonempty [] c t = refl
append-nonempty (d ∷ s) c t = refl

pub format-nonempty : (bytes : ℕ) → is_empty (format_cache_capacity bytes) ≡ false
unfolding format_cache_capacity is_empty
format-nonempty bytes = elim (Bool-cases (bytes == 0)) [
  | inl a ↦ rw a refl
  | inr a ↦ elim (Bool-cases (bytes % 1073741824 == 0)) [
    | inl g ↦ rw (a, g) (append-nonempty _ _ _)
    | inr g ↦ elim (Bool-cases (bytes % 1048576 == 0)) [
      | inl m ↦ rw (a, g, m) (append-nonempty _ _ _)
      | inr m ↦ elim (Bool-cases (bytes % 1024 == 0)) [
        | inl k ↦ rw (a, g, m, k) (append-nonempty _ _ _)
        | inr k ↦ rw (a, g, m, k) (append-nonempty _ _ _)
      ]
    ]
  ]
]

-- The texts with a comma and a blank between them.
unfoldable pub followed : List Bytes → Bytes
followed [] = []
followed (t ∷ ts) = codes ", " ++ t ++ followed ts

abbrev pub commas : List Bytes → Bytes
commas [] = []
commas (t ∷ ts) = t ++ followed ts

module _ {ℓ} {F : Type ℓ} where
  unfoldable pub last_of : CacheLevelEstimate F → List (CacheLevelEstimate F) → CacheLevelEstimate F
  last_of l [] = l
  last_of l (m ∷ ms) = last_of m ms

  unfoldable pub before_last :
      CacheLevelEstimate F → List (CacheLevelEstimate F) → List (CacheLevelEstimate F)
  before_last l [] = []
  before_last l (m ∷ ms) = l ∷ before_last m ms

  unfoldable pub capacity_text : CacheLevelEstimate F → Bytes
  capacity_text l = format_cache_capacity l.capacity_bytes

  unfoldable pub size_of : Option (CacheLevelEstimate F) → ℤ
  size_of none = pos 0
  size_of (some l) = pos (l.capacity_bytes / 1024)

  unfoldable pub deepest : List (CacheLevelEstimate F) → Option (CacheLevelEstimate F)
  deepest [] = none
  deepest (l ∷ ls) = some (last_of l ls)

  unfoldable pub between : List (CacheLevelEstimate F) → List (CacheLevelEstimate F)
  between [] = []
  between (l ∷ ls) = before_last l ls

unfoldable pub bytes_of {ℓ} : {F : Type ℓ} → Option (CacheLevelEstimate F) → ℕ
bytes_of none = 0
bytes_of (some l) = l.capacity_bytes

-- The note with the steps below the deepest level.
abbrev pub stepped : Bytes → List Bytes → Bytes
stepped note [] = note
stepped note (t ∷ ts) =
    join_note note
      (codes "the curve also stepped at " ++ commas (t ∷ ts) ++ codes " below this level")

pub is_empty-append : (s t : Bytes) → is_empty s ≡ false → is_empty (s ++ t) ≡ false
unfolding is_empty
is_empty-append [] t h = cc
is_empty-append (c ∷ s) t h = refl

module _ {ℓ} {F : Type ℓ} (fl : Doubles F) (doubt : Bytes) where
  unfoldable pub note_of : CacheLevelEstimate F → Bytes
  note_of l = join_note (describe_transition fl l) doubt

  unfoldable pub noted : Option (CacheLevelEstimate F) → Bytes
  noted none = []
  noted (some l) = note_of l
