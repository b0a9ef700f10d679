-- ===== src/ThreadPool/Parse.antt =====
-- common/sys/thread_pool.cpp: parse_thread_pool, which reads a list of CPUs such as "[0,3,5-8]".
-- A text is a C string without its terminator: its end is where the source reads '\0'. The null
-- pointer, which no caller passes, has no counterpart.
use cpufb.Base.{
  ℕ, zero, suc, ◌+◌, ◌-◌, ◌*◌, ◌/◌, ◌≡◌, refl, List, [], ◌∷◌, ◌++◌, Option, none, some, Bytes,
  codes, Bool, false, ltb, ◌==◌, if◌then◌else◌, ◌>>=◌, u64, max_int, length,
}
use cpufb.Text.Decimal.{is_digit}

-- `kMaxThreadPoolEntries`.
abbrev pub max_entries : ℕ
max_entries = 65536

-- The `do` loop over the digits: a number above `max_int` is refused before it is computed.
unfoldable pub scan_id : Bytes → ℕ → Option (ℕ × Bytes)
scan_id [] n = some (n, [])
scan_id (c ∷ s) n =
    let digit = c - b'0' in
    let more = scan_id s (u64 (n * 10 + digit)) in
    if is_digit c then if ltb ((max_int - digit) / 10) n then none else more else some (n, c ∷ s)

-- The test for a first digit, and the loop.
unfoldable pub read_id : Bytes → Option (ℕ × Bytes)
read_id [] = none
read_id (c ∷ s) = if is_digit c then scan_id (c ∷ s) 0 else none

-- The right end of a range behind its left end.
unfoldable pub read_range : ℕ → Bytes → Option (ℕ × ℕ × Bytes)
read_range left [] = some (left, left, [])
read_range left (c ∷ s) =
    if c == b'-'
    then (do (right, rest) ← read_id s; if ltb right left then none else some (left, right, rest))
    else some (left, left, c ∷ s)

unfoldable pub read_entry : Bytes → Option (ℕ × ℕ × Bytes)
read_entry s = do (left, rest) ← read_id s; read_range left rest

-- `n` CPUs from `left` on: the loop that appends a range.
unfoldable pub cpus_from : ℕ → ℕ → List ℕ
cpus_from left zero = []
cpus_from left (suc n) = left ∷ cpus_from (left + 1) n

-- What follows an entry: the closing bracket at the end of the text, or a comma and the next round.
unfoldable pub after_entry : (List ℕ → Bytes → Option (List ℕ)) → List ℕ → Bytes → Option (List ℕ)
after_entry again parsed [] = none
after_entry again parsed (c ∷ rest) =
    let more = again parsed rest in
    if c == b']'
    then elim rest [ [] ↦ some parsed | b ∷ r ↦ none ]
    else if c == b','
    then more
    else none

-- The `while` loop. A round reads at least one byte, so that the length of the text is enough fuel.
unfoldable pub entries : ℕ → List ℕ → Bytes → Option (List ℕ)
entries zero parsed s = none
entries (suc fuel) parsed [] = none
entries (suc fuel) parsed (c ∷ s) = do
  (left, right, rest) ← read_entry (c ∷ s)
  let range_size = right - left + 1
  let more = after_entry (entries fuel) (parsed ++ cpus_from left range_size) rest
  if ltb (max_entries - length parsed) range_size then none else more

-- `sets[pos] == ']'` in front of the loop.
unfoldable pub is_closing : Bytes → Bool
is_closing [] = false
is_closing (c ∷ s) = c == b']'

-- `none` is `false`, which leaves `set_of_threads` as it was; `some` is its new value.
unfoldable pub parse_thread_pool : Bytes → Option (List ℕ)
unfolding entries is_closing
parse_thread_pool [] = none
parse_thread_pool (c ∷ s) =
    if c == b'[' then if is_closing s then none else entries (suc (length s)) [] s else none

usage_example : parse_thread_pool (codes "[0,3,5-8]") ≡ some (0 ∷ 3 ∷ 5 ∷ 6 ∷ 7 ∷ 8 ∷ [])
unfolding parse_thread_pool read_entry read_id scan_id read_range cpus_from after_entry
usage_example = refl

refusals :
    (parse_thread_pool (codes "[]") ≡ none)
    × (parse_thread_pool (codes "[1,]") ≡ none)
    × (parse_thread_pool (codes "[4-2]") ≡ none)
    × (parse_thread_pool (codes "[1]x") ≡ none)
    × (parse_thread_pool (codes "[2147483648]") ≡ none)
    × (parse_thread_pool (codes "[0-65536]") ≡ none)
unfolding parse_thread_pool read_entry read_id scan_id read_range cpus_from after_entry
refusals = (refl, refl, refl, refl, refl, refl)
