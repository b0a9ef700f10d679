-- ===== src/Text/Decimal.antt =====
-- Decimal digits: `isdigit`, the value of a run of digits, and `std::to_string`.
use mathlib.Core.List.{cons-ne-nil}
use cpufb.Base.{
  ℕ, zero, suc, ◌+◌, ◌-◌, ◌*◌, ◌/◌, ◌%◌, ◌≤◌, ◌≡◌, ◌≢◌, refl, [], ◌∷◌, arith, Bytes, Bool, leb,
  ◌&&◌, All, codes, ◌==◌, if◌then◌else◌, Bool-cases, ==→eq, inl, inr, ap, ◌∙◌,
}

abbrev pub is_digit : ℕ → Bool
is_digit c = leb b'0' c && leb c b'9'

abbrev pub IsDigit : ℕ → Type 0
IsDigit c = (b'0' ≤ c) × (c ≤ b'9')

-- The number that the digits `s` spell behind the number `n`, with no bound.
unfoldable pub value : ℕ → Bytes → ℕ
value n [] = n
value n (c ∷ s) = value (n * 10 + (c - b'0')) s

pub le-value : (s : Bytes) (n : ℕ) → n ≤ value n s
unfolding value
le-value [] n = omega arith
le-value (c ∷ s) n = omega (arith, le-value s (n * 10 + (c - b'0')))

-- The digits of `n` before `out`, none for 0. The fuel `n` is enough: a round divides by ten.
print_digits : ℕ → ℕ → Bytes → Bytes
print_digits zero n out = out
print_digits (suc fuel) n out =
    let more = print_digits fuel (n / 10) ((b'0' + n % 10) ∷ out) in if n == 0 then out else more

-- `std::to_string` of an unsigned number.
unfoldable pub to_string : ℕ → Bytes
unfolding print_digits
to_string n = print_digits n (n / 10) ((b'0' + n % 10) ∷ [])

-- What the printed text `text` of `n` before `out` is to the digits `out`.
record Spells (n : ℕ) (out text : Bytes) : Type 0 where
  reads : value 0 text ≡ value n out
  digits : All IsDigit out → All IsDigit text
  nonempty : out ≢ [] → text ≢ []

print_digits-Spells : (fuel n : ℕ) (out : Bytes) → n ≤ fuel → Spells n out (print_digits fuel n out)
unfolding print_digits value
print_digits-Spells zero n out h =
    let e : n ≡ 0 = omega arith in
    rw e (record { reads = refl; digits = λ d. d; nonempty = λ d. d })
print_digits-Spells (suc fuel) n out h = elim (Bool-cases (n == 0)) [
  | inl e ↦
      let z : n ≡ 0 = ==→eq n 0 e in
      rw z (record { reads = refl; digits = λ d. d; nonempty = λ d. d })
  | inr e ↦
      let r = print_digits-Spells fuel (n / 10) ((b'0' + n % 10) ∷ out) (ground arith) in
      rw e (record {
        reads = r.reads ∙ ap (λ m. value m out) (omega arith);
        digits = λ d. r.digits (omega arith, d);
        nonempty = λ d. r.nonempty (cons-ne-nil _ _);
      })
]

-- The printed number is one or more digits, and they spell the number.
pub to_string-Spells :
    (n : ℕ) → (value 0 (to_string n) ≡ n) × All IsDigit (to_string n) × (to_string n ≢ [])
unfolding to_string value
to_string-Spells n =
    let r = print_digits-Spells n (n / 10) ((b'0' + n % 10) ∷ []) (omega arith) in
    (r.reads ∙ omega arith, r.digits (omega arith, tt), r.nonempty (cons-ne-nil _ _))

to_string_zero : to_string 0 ≡ codes "0"
unfolding to_string
to_string_zero = refl

to_string_large : to_string 18446744073709551615 ≡ codes "18446744073709551615"
unfolding to_string
to_string_large = refl
