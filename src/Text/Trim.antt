-- ===== src/Text/Trim.antt =====
-- Blanks at the ends of a text: `trim_arg_value` and `normalize_filter_value` of common/cli.cpp, and
-- `trim` of common/cache/cache_topology.cpp, which names the same four bytes.
use cpufb.Base.{
  ℕ, ◌≡◌, refl, ap, ◌∙◌, [], ◌∷◌, Bool, false, ◌&&◌, ◌||◌, arith, Bytes, ◌==◌, if◌then◌else◌,
  Bool-cases, inl, inr, All,
}
use cpufb.Text.Bytes.{to_lower, lowercase, lowercase_idem, is_empty}

unfoldable pub is_blank : ℕ → Bool
is_blank c = c == b' ' || c == 9 || c == 10 || c == 13

-- From the first byte that is not blank.
unfoldable pub drop_blanks : Bytes → Bytes
drop_blanks [] = []
drop_blanks (c ∷ s) = if is_blank c then drop_blanks s else c ∷ s

-- Up to the last byte that is not blank.
unfoldable pub drop_end : Bytes → Bytes
unfolding is_empty
drop_end [] = []
drop_end (c ∷ s) = let rest = drop_end s in if is_blank c && is_empty rest then [] else c ∷ rest

unfoldable pub trim : Bytes → Bytes
trim s = drop_end (drop_blanks s)

unfoldable pub normalize_filter_value : Bytes → Bytes
normalize_filter_value value = lowercase (trim value)

-- A text with no blank at either end, if it is not empty.
abbrev pub Starts : Bytes → Type 0
Starts [] = Unit
Starts (c ∷ s) = is_blank c ≡ false

drop_blanks-Starts : (s : Bytes) → Starts (drop_blanks s)
unfolding drop_blanks
drop_blanks-Starts [] = tt
drop_blanks-Starts (c ∷ s) = elim (Bool-cases (is_blank c)) [
  | inl e ↦ rw e (drop_blanks-Starts s)
  | inr e ↦ rw e e
]

drop_blanks_same : (s : Bytes) → Starts s → drop_blanks s ≡ s
unfolding drop_blanks
drop_blanks_same [] h = refl
drop_blanks_same (c ∷ s) h = rw h

drop_end-Starts : (s : Bytes) → Starts s → Starts (drop_end s)
unfolding drop_end
drop_end-Starts [] h = tt
drop_end-Starts (c ∷ s) h = rw h h

drop_end_idem : (s : Bytes) → drop_end (drop_end s) ≡ drop_end s
unfolding drop_end
drop_end_idem [] = refl
drop_end_idem (c ∷ s) = elim (Bool-cases (is_blank c && is_empty (drop_end s))) [
  | inl e ↦ rw e
  | inr e ↦ rw e (rw (drop_end_idem s, e) refl)
]

drop_blanks_solid : (s : Bytes) → All (λ c. is_blank c ≡ false) s → drop_blanks s ≡ s
unfolding drop_blanks
drop_blanks_solid [] h = refl
drop_blanks_solid (c ∷ s) h = rw (h.0) refl

drop_end_solid : (s : Bytes) → All (λ c. is_blank c ≡ false) s → drop_end s ≡ s
unfolding drop_end
drop_end_solid [] h = refl
drop_end_solid (c ∷ s) h = rw (h.0, drop_end_solid s h.1) refl

pub trim_idem : (s : Bytes) → trim (trim s) ≡ trim s
unfolding trim
trim_idem s =
    ap drop_end (drop_blanks_same _ (drop_end-Starts _ (drop_blanks-Starts s)))
    ∙ drop_end_idem (drop_blanks s)

is_blank-to_lower : (c : ℕ) → is_blank (to_lower c) ≡ is_blank c
unfolding is_blank to_lower
is_blank-to_lower c = ground arith

lower-drop_blanks : (s : Bytes) → drop_blanks (lowercase s) ≡ lowercase (drop_blanks s)
unfolding drop_blanks lowercase
lower-drop_blanks [] = refl
lower-drop_blanks (c ∷ s) = elim (Bool-cases (is_blank c)) [
  | inl e ↦ rw (is_blank-to_lower c, e) (lower-drop_blanks s)
  | inr e ↦ rw (is_blank-to_lower c, e) refl
]

is_empty-lower : (s : Bytes) → is_empty (lowercase s) ≡ is_empty s
unfolding is_empty lowercase
is_empty-lower [] = refl
is_empty-lower (c ∷ s) = refl

lower-drop_end : (s : Bytes) → drop_end (lowercase s) ≡ lowercase (drop_end s)
unfolding drop_end lowercase
lower-drop_end [] = refl
lower-drop_end (c ∷ s) = elim (Bool-cases (is_blank c && is_empty (drop_end s))) [
  | inl e ↦ rw (lower-drop_end s, is_blank-to_lower c, is_empty-lower, e) refl
  | inr e ↦ rw (lower-drop_end s, is_blank-to_lower c, is_empty-lower, e) refl
]

-- Normalizing a value twice is normalizing it once.
pub normalize_filter_value_idem :
    (s : Bytes) → normalize_filter_value (normalize_filter_value s) ≡ normalize_filter_value s
unfolding normalize_filter_value trim
normalize_filter_value_idem s =
    rw (lower-drop_blanks, lower-drop_end, lowercase_idem) (ap lowercase (trim_idem s))

-- Without blanks nothing is cut off.
pub trim_solid : (s : Bytes) → All (λ c. is_blank c ≡ false) s → trim s ≡ s
unfolding trim
trim_solid s h = ap drop_end (drop_blanks_solid s h) ∙ drop_end_solid s h
