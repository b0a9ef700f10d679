-- ===== src/Cli/Prefix.antt =====
-- common/cli.cpp: format_thread_pool_prefix, which writes a list of CPUs as parse_thread_pool reads it.
use cpufb.Base.{
  ℕ, suc, zero, ◌+◌, ◌≡◌, ◌≤◌, ◌<◌, refl, ◌∙◌, sym, ap, List, [], ◌∷◌, ◌++◌, Option, some, Bytes,
  if◌then◌else◌, ◌==◌, length, get_elem?, take, arith, All, ◌>>=◌, max_int, append_assoc,
}
use cpufb.Text.Decimal.{to_string, to_string-Spells}
use cpufb.ThreadPool.Parse.{parse_thread_pool, max_entries, cpus_from}
use cpufb.ThreadPool.Grammar.{cpus, Entry, single, Body, last, more}
use cpufb.ThreadPool.Complete.{parse_thread_pool_complete}

-- The loop from the index `i` on, `n` rounds; `none` for a read behind the end.
unfoldable pub prefix_from : List ℕ → ℕ → ℕ → Option Bytes
prefix_from threads i zero = some []
prefix_from threads i (suc n) = do
  cpu ← get_elem? threads i
  rest ← prefix_from threads (suc i) n
  some ((if i == 0 then [] else b',' ∷ []) ++ to_string cpu ++ rest)

unfoldable pub format_thread_pool_prefix : List ℕ → ℕ → Option Bytes
unfolding prefix_from
format_thread_pool_prefix threads count = do
  inner ← prefix_from threads 0 count
  some (b'[' ∷ inner ++ b']' ∷ [])

commas : List ℕ → Bytes
commas [] = []
commas (cpu ∷ cpus) = b',' ∷ to_string cpu ++ commas cpus

prefix_from-commas :
    (xs threads : List ℕ) (i n : ℕ)
    → 0 < i
    → ((j : ℕ) → get_elem? threads (i + j) ≡ get_elem? xs j)
    → n ≤ length xs
    → prefix_from threads i n ≡ some (commas (take n xs))
unfolding prefix_from commas
prefix_from-commas xs threads i zero p same h = refl
prefix_from-commas [] threads i (suc n) p same h = absurd (omega (arith, h))
prefix_from-commas (x ∷ xs) threads i (suc n) p same h =
    let first : get_elem? threads i ≡ some x = ap (get_elem? threads) (omega arith) ∙ same 0 in
    let rest =
      prefix_from-commas xs threads (suc i) n (omega arith)
        (λ j. ap (get_elem? threads) (omega arith) ∙ same (suc j)) (omega arith) in
    rw (first, rest) (ground arith)

to_string-Entry : (n : ℕ) → n ≤ max_int → Entry (to_string n) n n
to_string-Entry n h =
    let s = to_string-Spells n in
    single (record { digits = s.1; nonempty = s.2; spells = s.0; fits = h }) refl

cpus-single : (n : ℕ) → cpus n n ≡ n ∷ []
unfolding cpus_from
cpus-single n = ap (cpus_from n) {y = 1} (omega arith)

commas-Body :
    (x : ℕ) (xs : List ℕ)
    → All (λ cpu. cpu ≤ max_int) (x ∷ xs)
    → Body (to_string x ++ (commas xs ++ b']' ∷ [])) (x ∷ xs)
unfolding commas
commas-Body x [] h = last (to_string x) x x (to_string-Entry x h.0) refl (sym (cpus-single x))
commas-Body x (y ∷ ys) h =
    more (to_string x) (to_string y ++ (commas ys ++ b']' ∷ [])) x x (y ∷ ys)
      (to_string-Entry x h.0) (commas-Body y ys h.1)
      (ap (λ t. to_string x ++ (b',' ∷ t)) (append_assoc (to_string y) (commas ys) (b']' ∷ [])))
      (ap (λ l. l ++ (y ∷ ys)) (sym (cpus-single x)))

length-take : (n : ℕ) (xs : List ℕ) → length (take n xs) ≤ n
length-take zero xs = omega arith
length-take (suc n) [] = omega arith
length-take (suc n) (x ∷ xs) = omega (arith, length-take n xs)

take-All :
    (n : ℕ) (xs : List ℕ) → All (λ cpu. cpu ≤ max_int) xs → All (λ cpu. cpu ≤ max_int) (take n xs)
take-All zero xs h = tt
take-All (suc n) [] h = tt
take-All (suc n) (x ∷ xs) h = (h.0, take-All n xs h.1)

pub formatted : ℕ → List ℕ → ℕ → Bytes
formatted x xs n = b'[' ∷ to_string x ++ (commas (take n xs) ++ b']' ∷ [])

pub format_thread_pool_prefix-formatted :
    (x : ℕ) (xs : List ℕ) (n : ℕ)
    → suc n ≤ length (x ∷ xs)
    → format_thread_pool_prefix (x ∷ xs) (suc n) ≡ some (formatted x xs n)
unfolding format_thread_pool_prefix prefix_from formatted
format_thread_pool_prefix-formatted x xs n h =
    let same =
      prefix_from-commas xs (x ∷ xs) 1 n (omega arith)
        (λ j. ap (get_elem? (x ∷ xs)) {y = suc j} (omega arith)) (omega arith) in
    rw same
      (ap (λ t. some (b'[' ∷ t)) (append_assoc (to_string x) (commas (take n xs)) (b']' ∷ [])))

-- The first CPUs of a list, written as text, are read back.
pub parse_thread_pool-format_thread_pool_prefix :
    (threads : List ℕ) (count : ℕ)
    → All (λ cpu. cpu ≤ max_int) threads
    → 0 < count
    → count ≤ length threads
    → count ≤ max_entries
    → (format_thread_pool_prefix threads count >>= parse_thread_pool) ≡ some (take count threads)
unfolding formatted
parse_thread_pool-format_thread_pool_prefix threads zero v p h m = absurd (omega (arith, p))
parse_thread_pool-format_thread_pool_prefix [] (suc n) v p h m = absurd (omega (arith, h))
parse_thread_pool-format_thread_pool_prefix (x ∷ xs) (suc n) v p h m =
    let body = commas-Body x (take n xs) (v.0, take-All n xs v.1) in
    rw (format_thread_pool_prefix-formatted x xs n h) (
      parse_thread_pool_complete (formatted x xs n) (x ∷ take n xs) record {
        body = to_string x ++ (commas (take n xs) ++ b']' ∷ []);
        opens = refl;
        entries = body;
        fits = omega (arith, length-take n xs);
      })
