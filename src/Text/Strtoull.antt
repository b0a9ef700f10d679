-- ===== src/Text/Strtoull.antt =====
-- `std::strtoull` with base 10, as C describes it, over a text without its terminator.
use cpufb.Base.{
  ℕ, ◌+◌, ◌-◌, ◌≤◌, ◌<◌, ◌≡◌, ◌≢◌, refl, [], ◌∷◌, ◌++◌, Bool, true, false, ◌&&◌, ◌||◌, arith, Bytes,
  codes, ltb, leb, ◌==◌, if◌then◌else◌, u64, max_u64, All, ◌∙◌,
}
use cpufb.Text.Decimal.{is_digit, IsDigit, value}
use cpufb.Text.Bytes.{is_empty}

-- `std::isspace` in the C locale.
unfoldable pub is_space : ℕ → Bool
is_space c = c == b' ' || leb 9 c && leb c 13

unfoldable pub skip_spaces : Bytes → Bytes
skip_spaces [] = []
skip_spaces (c ∷ s) = if is_space c then skip_spaces s else c ∷ s

-- The longest run of digits, and what stands behind it.
unfoldable pub span_digits : Bytes → Bytes × Bytes
span_digits [] = ([], [])
span_digits (c ∷ s) =
    let (ds, rest) = span_digits s in if is_digit c then (c ∷ ds, rest) else ([], c ∷ s)

-- The result: whether there was a number, its value, where it ends, and whether `errno` is set.
pub record Number : Type 0 where
  pub converted : Bool
  pub result : ℕ
  pub rest : Bytes
  pub out_of_range : Bool

-- A leading minus negates in the unsigned type.
unfoldable pub with_sign : Bool → Bytes → Bytes → Number
unfolding is_empty
with_sign negative original s =
    let ds = (span_digits s).0 in
    let rest = (span_digits s).1 in
    if is_empty ds
    then record { converted = false; result = 0; rest = original; out_of_range = false }
    else if ltb max_u64 (value 0 ds)
    then record { converted = true; result = max_u64; rest = rest; out_of_range = true }
    else record {
      converted = true;
      result = if negative then u64 (max_u64 + 1 - value 0 ds) else value 0 ds;
      rest = rest;
      out_of_range = false;
    }

unfoldable pub signed : Bytes → Bytes → Number
signed original [] = with_sign false original []
signed original (c ∷ s) =
    if c == b'-'
    then with_sign true original s
    else if c == b'+'
    then with_sign false original s
    else with_sign false original (c ∷ s)

unfoldable pub strtoull : Bytes → Number
unfolding signed skip_spaces
strtoull s = signed s (skip_spaces s)

-- Every byte is a digit.
unfoldable pub all_digits : Bytes → Bool
all_digits [] = true
all_digits (c ∷ s) = is_digit c && all_digits s

pub all_digits-IsDigit : (s : Bytes) → all_digits s ≡ true → All IsDigit s
unfolding all_digits
all_digits-IsDigit [] h = tt
all_digits-IsDigit (c ∷ s) h = ground (arith, all_digits-IsDigit s)

pub IsDigit-all_digits : (s : Bytes) → All IsDigit s → all_digits s ≡ true
unfolding all_digits
IsDigit-all_digits [] h = refl
IsDigit-all_digits (c ∷ s) h = ground (arith, IsDigit-all_digits s h.1)

-- The text goes on with something other than a digit, or ends.
abbrev pub Stops : Bytes → Type 0
Stops [] = Unit
Stops (c ∷ s) = is_digit c ≡ false

pub span_digits-append :
    (ds rest : Bytes) → All IsDigit ds → Stops rest → span_digits (ds ++ rest) ≡ (ds, rest)
unfolding span_digits
span_digits-append [] [] h k = refl
span_digits-append [] (c ∷ rest) h k = rw k
span_digits-append (c ∷ ds) rest h k =
    let digit : is_digit c ≡ true = ground arith in
    rw (span_digits-append ds rest h.1 k, digit) refl

strtoull-first :
    (c : ℕ) (s : Bytes) → IsDigit c → strtoull (c ∷ s) ≡ with_sign false (c ∷ s) (c ∷ s)
unfolding strtoull is_space
strtoull-first c s h =
    let space : (c == b' ' || leb 9 c && leb c 13) ≡ false = ground arith in
    let minus : (c == b'-') ≡ false = ground arith in
    let plus : (c == b'+') ≡ false = ground arith in rw space (rw (minus, plus) refl)

with_sign-digits :
    (original s rest : Bytes) (c : ℕ) (ds : Bytes)
    → span_digits s ≡ (c ∷ ds, rest)
    → value 0 (c ∷ ds) ≤ max_u64
    → with_sign false original s
      ≡ record { converted = true; result = value 0 (c ∷ ds); rest = rest; out_of_range = false }
unfolding with_sign
with_sign-digits original s rest c ds e h =
    let small : ltb max_u64 (value 0 (c ∷ ds)) ≡ false = ground arith in rw e (rw small refl)

with_sign-too_large :
    (original s rest : Bytes) (c : ℕ) (ds : Bytes)
    → span_digits s ≡ (c ∷ ds, rest)
    → max_u64 < value 0 (c ∷ ds)
    → with_sign false original s
      ≡ record { converted = true; result = max_u64; rest = rest; out_of_range = true }
unfolding with_sign
with_sign-too_large original s rest c ds e h =
    let large : ltb max_u64 (value 0 (c ∷ ds)) ≡ true = ground arith in rw e (rw large refl)

-- A number in range that is written with digits alone is read as itself, up to its last digit.
pub strtoull-digits :
    (ds rest : Bytes)
    → ds ≢ []
    → All IsDigit ds
    → value 0 ds ≤ max_u64
    → Stops rest
    → strtoull (ds ++ rest)
      ≡ record { converted = true; result = value 0 ds; rest = rest; out_of_range = false }
strtoull-digits [] rest n h k stop = absurd (n refl)
strtoull-digits (c ∷ ds) rest n h k stop =
    strtoull-first c (ds ++ rest) h.0
    ∙ with_sign-digits _ (c ∷ (ds ++ rest)) rest c ds (span_digits-append (c ∷ ds) rest h stop) k

-- One that is too large sets `errno`.
pub strtoull-too_large :
    (ds rest : Bytes)
    → ds ≢ []
    → All IsDigit ds
    → max_u64 < value 0 ds
    → Stops rest
    → strtoull (ds ++ rest)
      ≡ record { converted = true; result = max_u64; rest = rest; out_of_range = true }
strtoull-too_large [] rest n h k stop = absurd (n refl)
strtoull-too_large (c ∷ ds) rest n h k stop =
    strtoull-first c (ds ++ rest) h.0
    ∙ with_sign-too_large _ (c ∷ (ds ++ rest)) rest c ds (span_digits-append (c ∷ ds) rest h stop) k

signed_example : (strtoull (codes " -1x")).result ≡ max_u64
unfolding strtoull is_space with_sign span_digits value
signed_example = refl
