-- ===== src/Cache/Capacity.antt =====
-- common/cache/cache_topology.cpp: what the texts of sizes mean, and the size of a stream.
use cpufb.Base.{
  ℕ, ◌*◌, ◌/◌, ◌<◌, ◌≡◌, ◌≢◌, ◌⊎◌, inl, inr, refl, [], ◌∷◌, ◌++◌, Option, none, some, false, ◌||◌,
  Bytes, ltb, ◌==◌, if◌then◌else◌, max_u64, u64, All, All-append, arith, Bool-cases,
}
use cpufb.Text.Bytes.{is_empty, to_lower}
use cpufb.Text.Decimal.{IsDigit, is_digit, value}
use cpufb.Text.Strtoull.{skip_spaces, strtoull-digits, strtoull-too_large, Stops}
use cpufb.Text.Trim.{trim_solid, is_blank}
use cpufb.Cache.Sizes.{kib, mib, gib, multiplier, skip_b, scaled, with_unit, parse_cache_size}

-- The letters of the units, by what they stand for.
pub data Letter : ℕ → ℕ → Type 0 where
  small_k : Letter b'k' 1024
  large_k : Letter b'K' 1024
  small_m : Letter b'm' (1024 * 1024)
  large_m : Letter b'M' (1024 * 1024)
  small_g : Letter b'g' (1024 * 1024 * 1024)
  large_g : Letter b'G' (1024 * 1024 * 1024)

-- What may stand behind a number: nothing, a unit, or a unit and the letter of the byte.
pub data Suffix : Bytes → ℕ → Type 0 where
  bytes : Suffix [] 1
  unit : (c m : ℕ) → Letter c m → Suffix (c ∷ []) m
  unit_b : (c b m : ℕ) → Letter c m → (b ≡ b'b') ⊎ (b ≡ b'B') → Suffix (c ∷ b ∷ []) m

Letter-multiplier : (c m : ℕ) → Letter c m → multiplier c ≡ some m
unfolding multiplier to_lower
Letter-multiplier c m small_k = refl
Letter-multiplier c m large_k = refl
Letter-multiplier c m small_m = refl
Letter-multiplier c m large_m = refl
Letter-multiplier c m small_g = refl
Letter-multiplier c m large_g = refl

lower-b : (b : ℕ) → (b ≡ b'b') ⊎ (b ≡ b'B') → to_lower b ≡ b'b'
unfolding to_lower
lower-b b (inl e) = rw e refl
lower-b b (inr e) = rw e refl

with_unit-Suffix :
    (n m : ℕ) (suffix : Bytes)
    → Suffix suffix m
    → with_unit n suffix ≡ (if ltb (max_u64 / m) n then none else some (u64 (n * m)))
unfolding with_unit scaled skip_b skip_spaces is_empty
with_unit-Suffix n m suffix bytes = refl
with_unit-Suffix n m suffix (unit c m' l) = ground (arith, Letter-multiplier c m l)
with_unit-Suffix n m suffix (unit_b c b m' l k) =
    ground (arith, Letter-multiplier c m l, lower-b b k)

multiplier-letter : (c m : ℕ) → multiplier c ≡ some m → (is_digit c ≡ false) × (is_blank c ≡ false)
unfolding multiplier to_lower is_blank
multiplier-letter c m e = ground arith

b-letter : (b : ℕ) → to_lower b ≡ b'b' → is_blank b ≡ false
unfolding to_lower is_blank
b-letter b e = ground arith

digit-letter : (c : ℕ) → IsDigit c → is_blank c ≡ false
unfolding is_blank
digit-letter c h = ground arith

Suffix-Stops : (suffix : Bytes) (m : ℕ) → Suffix suffix m → Stops suffix
Suffix-Stops suffix m bytes = tt
Suffix-Stops suffix m (unit c m' l) = (multiplier-letter c m (Letter-multiplier c m l)).0
Suffix-Stops suffix m (unit_b c b m' l k) = (multiplier-letter c m (Letter-multiplier c m l)).0

Suffix-solid : (suffix : Bytes) (m : ℕ) → Suffix suffix m → All (λ c. is_blank c ≡ false) suffix
Suffix-solid suffix m bytes = tt
Suffix-solid suffix m (unit c m' l) = ((multiplier-letter c m (Letter-multiplier c m l)).1, tt)
Suffix-solid suffix m (unit_b c b m' l k) =
    ((multiplier-letter c m (Letter-multiplier c m l)).1, (b-letter b (lower-b b k), tt))

digits-solid : (ds : Bytes) → All IsDigit ds → All (λ c. is_blank c ≡ false) ds
digits-solid [] h = tt
digits-solid (c ∷ ds) h = (digit-letter c h.0, digits-solid ds h.1)

append-is_empty : (ds suffix : Bytes) → ds ≢ [] → is_empty (ds ++ suffix) ≡ false
unfolding is_empty
append-is_empty [] suffix n = absurd (n refl)
append-is_empty (c ∷ ds) suffix n = refl

-- The four factors.
abbrev IsScale : ℕ → Type 0
IsScale m = (m ≡ 1) ⊎ ((m ≡ kib) ⊎ ((m ≡ mib) ⊎ (m ≡ gib)))

multiplier-IsScale : (c m : ℕ) → multiplier c ≡ some m → IsScale m
unfolding multiplier
multiplier-IsScale c m e = ground arith

Suffix-IsScale : (suffix : Bytes) (m : ℕ) → Suffix suffix m → IsScale m
Suffix-IsScale suffix m bytes = inl refl
Suffix-IsScale suffix m (unit c m' l) = multiplier-IsScale c m (Letter-multiplier c m l)
Suffix-IsScale suffix m (unit_b c b m' l k) = multiplier-IsScale c m (Letter-multiplier c m l)

checked : ℕ → ℕ → Option ℕ
checked v m = if v == 0 || ltb max_u64 (v * m) then none else some (v * m)

module _ (v m : ℕ) (scale : IsScale m) where
  large-fits : max_u64 < v → none ≡ checked v m
  unfolding checked
  large-fits h = elim scale [
    | inl e ↦ rw e (ground arith)
    | inr (inl e) ↦ rw e (ground arith)
    | inr (inr (inl e)) ↦ rw e (ground arith)
    | inr (inr (inr e)) ↦ rw e (ground arith)
  ]

  small-fits :
      (if v == 0 then none else if ltb (max_u64 / m) v then none else some (u64 (v * m)))
      ≡ checked v m
  unfolding checked
  small-fits = elim scale [
    | inl e ↦ rw e (ground arith)
    | inr (inl e) ↦ rw e (ground arith)
    | inr (inr (inl e)) ↦ rw e (ground arith)
    | inr (inr (inr e)) ↦ rw e (ground arith)
  ]

-- A number with its unit is read as the number of bytes, if it is not zero and fits 64 bits, and
-- refused otherwise.
pub parse_cache_size-Suffix :
    (ds suffix : Bytes) (m : ℕ)
    → ds ≢ []
    → All IsDigit ds
    → Suffix suffix m
    → parse_cache_size (ds ++ suffix)
      ≡ (if value 0 ds == 0 || ltb max_u64 (value 0 ds * m) then none else some (value 0 ds * m))
unfolding parse_cache_size checked
parse_cache_size-Suffix ds suffix m n h u =
    let cleaned =
      trim_solid (ds ++ suffix)
        (All-append _ ds suffix (digits-solid ds h) (Suffix-solid suffix m u)) in
    let stops = Suffix-Stops suffix m u in
    let some_text = append-is_empty ds suffix n in
    elim (Bool-cases (ltb max_u64 (value 0 ds))) [
      | inl e ↦
          rw (cleaned, strtoull-too_large ds suffix n h (ground arith) stops, some_text)
            (large-fits (value 0 ds) m (Suffix-IsScale suffix m u) (ground arith))
      | inr e ↦
          rw
            (
              cleaned,
              strtoull-digits ds suffix n h (ground arith) stops,
              some_text,
              with_unit-Suffix (value 0 ds) m suffix u,
            )
            (small-fits (value 0 ds) m (Suffix-IsScale suffix m u))
    ]
