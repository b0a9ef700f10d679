-- ===== src/ThreadPool/Complete.antt =====
-- common/sys/thread_pool.cpp: parse_thread_pool on the texts of the language.
use cpufb.Base.{
  ◌*◌, ℕ, zero, suc, ◌+◌, ◌-◌, ◌≤◌, ◌<◌, ◌≡◌, ◌≢◌, refl, ap, ◌∙◌, List, [], ◌∷◌, ◌++◌, Option, some,
  arith, Bytes, false, max_int, length, length-append, All, append_assoc,
}
use cpufb.Text.Decimal.{is_digit, IsDigit, value, le-value}
use cpufb.ThreadPool.Parse.{
  max_entries, scan_id, read_id, read_range, read_entry, after_entry, entries, is_closing,
  parse_thread_pool,
}
use cpufb.ThreadPool.Grammar.{
  CpuId, Entry, single, range, Body, last, more, Denotes, cpus, length-cpus_from,
}

-- The text does not go on with a digit.
abbrev Stops : Bytes → Type 0
Stops [] = Unit
Stops (c ∷ s) = is_digit c ≡ false

scan_id-value :
    (s rest : Bytes) (n : ℕ)
    → All IsDigit s
    → value n s ≤ max_int
    → Stops rest
    → scan_id (s ++ rest) n ≡ some (value n s, rest)
unfolding scan_id value
scan_id-value [] [] n d h stop = refl
scan_id-value [] (c ∷ rest) n d h stop = ground arith
scan_id-value (c ∷ s) rest n d h stop =
    let m = n * 10 + (c - b'0') in
    let small : m ≤ max_int = omega (arith, le-value s m) in
    ground (arith, scan_id-value s rest m d.1 h stop)

read_id-CpuId :
    (text rest : Bytes) (n : ℕ)
    → CpuId text n
    → Stops rest
    → read_id (text ++ rest) ≡ some (n, rest)
unfolding read_id
read_id-CpuId [] rest n v stop = absurd (v.nonempty refl)
read_id-CpuId (c ∷ s) rest n v stop = ground (
  arith,
  v.spells,
  v.fits,
  scan_id-value (c ∷ s) rest 0 v.digits (omega (arith, v.spells, v.fits)) stop,
)

-- An entry is read whole, if neither a digit nor a dash follows it.
abbrev Ends : Bytes → Type 0
Ends [] = Unit
Ends (c ∷ s) = (is_digit c ≡ false) × (c ≢ b'-')

Ends-Stops : (s : Bytes) → Ends s → Stops s
Ends-Stops [] h = tt
Ends-Stops (c ∷ s) h = h.0

read_range-Ends :
    (left : ℕ) (rest : Bytes) → Ends rest → read_range left rest ≡ some (left, left, rest)
unfolding read_range
read_range-Ends left [] h = refl
read_range-Ends left (c ∷ s) h = ground arith

read_entry-Entry :
    (e rest : Bytes) (left right : ℕ)
    → Entry e left right
    → Ends rest
    → read_entry (e ++ rest) ≡ some (left, right, rest)
unfolding read_entry
read_entry-Entry e rest left right (single v same) h =
    rw (read_id-CpuId e rest left v (Ends-Stops rest h), same) (read_range-Ends left rest h)
read_entry-Entry e rest left right (range a b split v w le) h =
    rw (split, append_assoc, read_id-CpuId a (b'-' ∷ (b ++ rest)) left v refl)
      (unfold read_range in ground (arith, read_id-CpuId b rest right w (Ends-Stops rest h)))

CpuId-ne-nil : (a : Bytes) (n : ℕ) → CpuId a n → 0 < length a
CpuId-ne-nil [] n v = absurd (v.nonempty refl)
CpuId-ne-nil (c ∷ a) n v = omega arith

-- An entry has at least one byte.
Entry-length : (e : Bytes) (left right : ℕ) → Entry e left right → 0 < length e
Entry-length e left right (single v same) = CpuId-ne-nil e left v
Entry-length e left right (range a b split v w le) =
    omega (arith, ap length split, length-append a (b'-' ∷ b), CpuId-ne-nil a left v)

after_entry_comma :
    (again : List ℕ → Bytes → Option (List ℕ)) (parsed : List ℕ) (rest : Bytes)
    → after_entry again parsed (b',' ∷ rest) ≡ again parsed rest
unfolding after_entry
after_entry_comma again parsed rest = refl

-- One round of the loop on a text that begins with an entry.
entries_round :
    (fuel : ℕ) (parsed : List ℕ) (e rest : Bytes) (left right : ℕ)
    → Entry e left right
    → Ends rest
    → length parsed + (right - left + 1) ≤ max_entries
    → entries (suc fuel) parsed (e ++ rest)
      ≡ after_entry (entries fuel) (parsed ++ cpus left right) rest
unfolding entries
entries_round fuel parsed [] rest left right v h k = absurd (omega (arith, Entry-length _ _ _ v))
entries_round fuel parsed (c ∷ e) rest left right v h k =
    rw (read_entry-Entry (c ∷ e) rest left right v h) (ground arith)

-- The loop accepts what the grammar describes, if the entries do not exceed the limit.
entries-Body :
    (fuel : ℕ) (parsed : List ℕ) (s : Bytes) (xs : List ℕ)
    → Body s xs
    → length s < fuel
    → length parsed + length xs ≤ max_entries
    → entries fuel parsed s ≡ some (parsed ++ xs)
entries-Body zero parsed s xs b h k = absurd (omega arith)
entries-Body (suc fuel) parsed s xs (last e left right v split same) h k = rw split (
    entries_round fuel parsed e (b']' ∷ []) left right v (refl, omega arith)
      (omega (arith, ap length same, length-cpus_from left (right - left + 1)))
    ∙ rw same (unfold after_entry in refl))
entries-Body (suc fuel) parsed s xs (more e rest left right ys v b split same) h k =
    let added : length xs ≡ (right - left + 1) + length ys =
      ap length same
      ∙ length-append (cpus left right) ys
      ∙ ap (λ n. n + length ys) (length-cpus_from left (right - left + 1)) in
    let shorter : length rest < fuel =
      omega (arith, ap length split, length-append e (b',' ∷ rest), Entry-length e left right v) in
    let done = parsed ++ cpus left right in
    rw (split, same)
      (entries_round fuel parsed e (b',' ∷ rest) left right v (refl, omega arith) (omega arith)
        ∙ after_entry_comma (entries fuel) done rest
        ∙ (entries-Body fuel done rest ys b shorter (
              omega (
                arith,
                length-append parsed (cpus left right),
                length-cpus_from left (right - left + 1),
              ))
            ∙ ap some (append_assoc parsed (cpus left right) ys)))

CpuId-opens : (a rest : Bytes) (n : ℕ) → CpuId a n → is_closing (a ++ rest) ≡ false
unfolding is_closing
CpuId-opens [] rest n v = absurd (v.nonempty refl)
CpuId-opens (c ∷ a) rest n v = ground (arith, v.digits)

Entry-opens :
    (e rest : Bytes) (left right : ℕ) → Entry e left right → is_closing (e ++ rest) ≡ false
Entry-opens e rest left right (single v same) = CpuId-opens e rest left v
Entry-opens e rest left right (range a b split v w le) =
    rw (split, append_assoc) (CpuId-opens a (b'-' ∷ (b ++ rest)) left v)

Body-opens : (s : Bytes) (xs : List ℕ) → Body s xs → is_closing s ≡ false
Body-opens s xs (last e left right v split same) = rw split (Entry-opens e _ left right v)
Body-opens s xs (more e rest left right ys v b split same) = rw split (Entry-opens e _ left right v)

pub parse_thread_pool_complete :
    (text : Bytes) (xs : List ℕ) → Denotes text xs → parse_thread_pool text ≡ some xs
unfolding parse_thread_pool
parse_thread_pool_complete text xs d =
    rw (d.opens, Body-opens d.body xs d.entries)
      (entries-Body (suc (length d.body)) [] d.body xs d.entries (omega arith)
        (omega (arith, d.fits)))
