-- ===== src/Cli/Numbers.antt =====
-- common/cli.cpp: the numbers of the command line, parse_positive_integer and parse_uint32_option.
use cpufb.Base.{
  ℕ, ◌%◌, ◌^◌, ◌≤◌, ◌<◌, ◌≡◌, ◌≢◌, ◌↔◌, refl, [], ◌∷◌, true, false, not, ◌&&◌, ◌||◌, arith, Bytes,
  ltb, ◌==◌, if◌then◌else◌, max_u64, max_u32, All, append-nil, Bool-cases, inl, inr, subst,
}
use mathlib.Core.List.{cons-ne-nil}
use cpufb.Text.Bytes.{is_empty}
use cpufb.Text.Decimal.{IsDigit, value}
use cpufb.Text.Strtoull.{
  strtoull, all_digits, all_digits-IsDigit, IsDigit-all_digits, strtoull-digits, strtoull-too_large,
}
use cpufb.Cli.Options.{Result, ok, err, not_positive, not_unsigned}

-- The loop refuses every byte that is no digit; then comes the conversion, with its own tests.
unfoldable pub parse_positive_integer : Bytes → Bytes → Result ℕ
parse_positive_integer value option =
    if is_empty value
    then err (not_positive option)
    else if not (all_digits value)
    then err (not_positive option)
    else let n = strtoull value in
      if n.out_of_range || not n.converted || not (is_empty n.rest) || n.result == 0
      then err (not_positive option)
      else ok n.result

-- `static_cast<uint32_t>` behind the test of the range.
unfoldable pub parse_uint32_option : Bytes → Bytes → Result ℕ
parse_uint32_option value option =
    let digits_only = not (is_empty value) && all_digits value in
    let n = strtoull value in
    let result = if digits_only then n.result else 0 in
    let range = if digits_only then n.out_of_range else false in
    if not digits_only || range || ltb max_u32 result
    then err (not_unsigned option)
    else ok (result % 2 ^ 32)

-- What a text of digits alone is converted to.
record Digits (s : Bytes) : Type 0 where
  nonempty : s ≢ []
  digits : All IsDigit s

nonempty_test : (s : Bytes) → s ≢ [] → is_empty s ≡ false
unfolding is_empty
nonempty_test [] h = absurd (h refl)
nonempty_test (c ∷ s) h = refl

is_empty-false : (s : Bytes) → is_empty s ≡ false → s ≢ []
unfolding is_empty
is_empty-false [] h = cc
is_empty-false (c ∷ s) h = cons-ne-nil c s

small :
    (s : Bytes)
    → Digits s
    → value 0 s ≤ max_u64
    → strtoull s ≡ record { converted = true; result = value 0 s; rest = []; out_of_range = false }
small s d h =
    subst
      (λ t.
        strtoull t
        ≡ record { converted = true; result = value 0 s; rest = []; out_of_range = false })
      (append-nil s) (strtoull-digits s [] d.nonempty d.digits h tt)

large :
    (s : Bytes)
    → Digits s
    → max_u64 < value 0 s
    → strtoull s ≡ record { converted = true; result = max_u64; rest = []; out_of_range = true }
large s d h =
    subst
      (λ t.
        strtoull t ≡ record { converted = true; result = max_u64; rest = []; out_of_range = true })
      (append-nil s) (strtoull-too_large s [] d.nonempty d.digits h tt)

-- The two ways in which the conversion of digits ends.
module _ (s : Bytes) (d : Digits s) where
  uint32-small :
      (option : Bytes)
      → value 0 s ≤ max_u64
      → parse_uint32_option s option
        ≡ (if ltb max_u32 (value 0 s) then err (not_unsigned option) else ok (value 0 s % 2 ^ 32))
  unfolding parse_uint32_option
  uint32-small option h =
      rw (small s d h, IsDigit-all_digits s d.digits, nonempty_test s d.nonempty) refl

  uint32-large :
      (option : Bytes)
      → max_u64 < value 0 s
      → parse_uint32_option s option ≡ err (not_unsigned option)
  unfolding parse_uint32_option
  uint32-large option h =
      rw (large s d h, IsDigit-all_digits s d.digits, nonempty_test s d.nonempty) refl

  positive-small :
      (option : Bytes)
      → value 0 s ≤ max_u64
      → parse_positive_integer s option
        ≡ (if value 0 s == 0 then err (not_positive option) else ok (value 0 s))
  unfolding parse_positive_integer
  positive-small option h =
      rw (small s d h, IsDigit-all_digits s d.digits, nonempty_test s d.nonempty)
        (unfold is_empty in refl)

  positive-large :
      (option : Bytes)
      → max_u64 < value 0 s
      → parse_positive_integer s option ≡ err (not_positive option)
  unfolding parse_positive_integer
  positive-large option h =
      rw (large s d h, IsDigit-all_digits s d.digits, nonempty_test s d.nonempty) refl

uint32-Digits : (s option : Bytes) (n : ℕ) → parse_uint32_option s option ≡ ok n → Digits s
unfolding parse_uint32_option
uint32-Digits s option n h = record {
  nonempty = is_empty-false s (ground arith);
  digits = all_digits-IsDigit s (ground arith);
}

positive-Digits : (s option : Bytes) (n : ℕ) → parse_positive_integer s option ≡ ok n → Digits s
unfolding parse_positive_integer
positive-Digits s option n h = record {
  nonempty = is_empty-false s (ground arith);
  digits = all_digits-IsDigit s (ground arith);
}

pub uint32_sound :
    (s option : Bytes) (n : ℕ)
    → parse_uint32_option s option ≡ ok n
    → (s ≢ []) × All IsDigit s × (value 0 s ≡ n) × (n ≤ max_u32)
uint32_sound s option n h =
    let d = uint32-Digits s option n h in
    elim (Bool-cases (ltb max_u64 (value 0 s))) [
      | inl e ↦ absurd (ground (arith, uint32-large s d option))
      | inr e ↦
          let r : (value 0 s ≡ n) × (n ≤ max_u32) = ground (arith, uint32-small s d option) in
          (d.nonempty, d.digits, r.0, r.1)
    ]

-- The option is accepted with `n` exactly when its text is one or more digits that spell `n`, and
-- `n` fits 32 bits.
pub parse_uint32_option-value :
    (s option : Bytes) (n : ℕ)
    → (parse_uint32_option s option ≡ ok n)
      ↔ ((s ≢ []) × All IsDigit s × (value 0 s ≡ n) × (n ≤ max_u32))
parse_uint32_option-value s option n = (
  uint32_sound s option n,
  λ h. ground (arith, h.2, h.3, uint32-small s (record { nonempty = h.0; digits = h.1 }) option),
)

pub positive_sound :
    (s option : Bytes) (n : ℕ)
    → parse_positive_integer s option ≡ ok n
    → (s ≢ []) × All IsDigit s × (value 0 s ≡ n) × (0 < n) × (n ≤ max_u64)
positive_sound s option n h =
    let d = positive-Digits s option n h in
    elim (Bool-cases (ltb max_u64 (value 0 s))) [
      | inl e ↦ absurd (ground (arith, positive-large s d option))
      | inr e ↦
          let r : (value 0 s ≡ n) × (0 < n) × (n ≤ max_u64) =
            ground (arith, positive-small s d option) in
          (d.nonempty, d.digits, r.0, r.1, r.2)
    ]

-- The option is accepted with `n` exactly when its text is one or more digits that spell `n`, and
-- `n` is positive and fits 64 bits.
pub parse_positive_integer-value :
    (s option : Bytes) (n : ℕ)
    → (parse_positive_integer s option ≡ ok n)
      ↔ ((s ≢ []) × All IsDigit s × (value 0 s ≡ n) × (0 < n) × (n ≤ max_u64))
parse_positive_integer-value s option n = (
  positive_sound s option n,
  λ h.
      ground
        (arith, h.2, h.3, h.4, positive-small s (record { nonempty = h.0; digits = h.1 }) option),
)
