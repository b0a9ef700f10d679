-- ===== src/Cache/Sysfs/Counted.antt =====
-- common/cache/cache_topology.cpp: count_cpu_list on a written list.
use cpufb.Base.{
  ℕ, zero, suc, ◌+◌, ◌-◌, ◌^◌, ◌≡◌, ◌≢◌, ◌≤◌, ◌<◌, refl, sym, ap, ◌∙◌, List, [], ◌∷◌, ◌++◌, some,
  true, false, ◌&&◌, ◌||◌, Bytes, ltb, leb, ◌==◌, if◌then◌else◌, arith, length, All, append_assoc,
  append-nil, length-append, Bool-cases, inl, inr, ==→eq,
}
use cpufb.Text.Bytes.{is_empty}
use cpufb.Text.Decimal.{IsDigit, to_string, value, to_string-Spells}
use cpufb.Text.Strtoull.{Stops, is_space, skip_spaces, span_digits-append}
use cpufb.Integers.{ℤ, pos, int_lt, int_add, in_int, plus, to_int-small}
use cpufb.Cache.Sysfs.{
  to_long, digits_of, after_sign, strtol, span_of, read_last, read_cpus, skip_comma, count_from,
  count_cpu_list,
}

strtol-digits :
    (ds rest : Bytes)
    → ds ≢ []
    → All IsDigit ds
    → value 0 ds < 2 ^ 63
    → Stops rest
    → strtol (ds ++ rest) ≡ some (pos (value 0 ds), rest)
unfolding strtol after_sign digits_of to_long is_space is_empty skip_spaces
strtol-digits [] rest n h k stop = absurd (n refl)
strtol-digits (c ∷ ds) rest n h k stop =
    let space : (c == b' ' || leb 9 c && leb c 13) ≡ false = ground (arith, h.0) in
    let minus : (c == b'-') ≡ false = ground (arith, h.0) in
    let plus : (c == b'+') ≡ false = ground (arith, h.0) in
    let small : ltb (value 0 (c ∷ ds)) 9223372036854775808 ≡ true = ground (arith, k) in
    rw (space, minus, plus, span_digits-append (c ∷ ds) rest h stop, small) refl

strtol-to_string :
    (n : ℕ) (rest : Bytes)
    → n < 2 ^ 63
    → Stops rest
    → strtol (to_string n ++ rest) ≡ some (pos n, rest)
strtol-to_string n rest h stop =
    let (reads, digits, nonempty) = to_string-Spells n in
    strtol-digits (to_string n) rest nonempty digits (omega (arith, reads, h)) stop
    ∙ ap (λ v. some (pos v, rest)) reads

-- A range of CPUs, as the kernel writes it, and a list of ranges with commas between them.
abbrev pub range_text : ℕ → ℕ → Bytes
range_text first last =
    if first == last then to_string first else to_string first ++ (b'-' ∷ to_string last)

unfoldable pub written : List (ℕ × ℕ) → Bytes
written [] = []
written (r ∷ []) = range_text r.0 r.1
written (r ∷ q ∷ rs) = range_text r.0 r.1 ++ (b',' ∷ written (q ∷ rs))

unfoldable pub total : List (ℕ × ℕ) → ℕ
total [] = 0
total (r ∷ rs) = r.1 - r.0 + 1 + total rs

abbrev pub Ranges : List (ℕ × ℕ) → Type 0
Ranges rs = All (λ r. (r.0 ≤ r.1) × (r.1 + 1 < 2 ^ 31)) rs

-- What stands behind a range: nothing, or a comma.
abbrev Behind : Bytes → Type 0
Behind [] = Unit
Behind (c ∷ s) = c ≡ b','

Behind-Stops : (s : Bytes) → Behind s → Stops s
Behind-Stops [] h = tt
Behind-Stops (c ∷ s) h = ground (arith, h)

read_last-Behind : (first : ℤ) (s : Bytes) → Behind s → read_last first s ≡ some (first, first, s)
unfolding read_last
read_last-Behind first [] h = refl
read_last-Behind first (c ∷ s) h =
    let other : (c == b'-') ≡ false = ground (arith, h) in rw other refl

read_cpus-range :
    (first last : ℕ) (rest : Bytes)
    → first ≤ last
    → last + 1 < 2 ^ 31
    → Behind rest
    → read_cpus (range_text first last ++ rest) ≡ some (pos first, pos last, rest)
unfolding read_cpus
read_cpus-range first last rest h k behind = elim (Bool-cases (first == last)) [
  | inl e ↦
      let same : last ≡ first = sym (==→eq first last e) in
      rw (e, same, strtol-to_string first rest (omega (arith, h, k)) (Behind-Stops rest behind))
        (read_last-Behind (pos first) rest behind)
  | inr e ↦
      let split : (to_string first ++ (b'-' ∷ to_string last)) ++ rest
          ≡ to_string first ++ (b'-' ∷ (to_string last ++ rest)) =
        append_assoc (to_string first) (b'-' ∷ to_string last) rest in
      rw
        (
          e,
          split,
          strtol-to_string first (b'-' ∷ (to_string last ++ rest)) (omega (arith, h, k)) refl,
          read_last,
          strtol-to_string last rest (omega (arith, h, k)) (Behind-Stops rest behind),
        )
        refl
]

in_int-small : (n : ℕ) → n < 2 ^ 31 → in_int (pos n) ≡ some (pos n)
unfolding in_int
in_int-small n h = let small : ltb n 2147483648 ≡ true = ground (arith, h) in rw small refl

-- A round of the loop that reads a range.
count_round :
    (fuel count first last : ℕ) (s end : Bytes)
    → s ≢ []
    → first ≤ last
    → last + 1 < 2 ^ 31
    → count + (last - first + 1) < 2 ^ 31
    → read_cpus s ≡ some (pos first, pos last, end)
    → count_from (suc fuel) (pos count) s
      ≡ count_from fuel (pos (count + (last - first + 1))) (skip_comma end)
unfolding int_lt int_add plus span_of count_from
count_round fuel count first last [] end n h k fits e = absurd (n refl)
count_round fuel count first last (c ∷ s) end n h k fits e =
    let ordered : ltb last first ≡ false = ground (arith, h) in
    rw
      (
        count_from,
        e,
        ordered,
        to_int-small (last - first + 1) (omega (arith, h, k)),
        in_int-small (count + (last - first + 1)) fits,
      )
      refl

longer : (s rest : Bytes) → s ≢ [] → length rest < length (s ++ rest)
longer [] rest h = absurd (h refl)
longer (c ∷ s) rest h = omega (arith, length-append s rest)

to_string-append : (n : ℕ) (rest : Bytes) → length rest < length (to_string n ++ rest)
to_string-append n rest = longer (to_string n) rest (to_string-Spells n).2

-- The text of a range is not empty.
range-length :
    (first last : ℕ) (rest : Bytes) → length rest < length (range_text first last ++ rest)
range-length first last rest = elim (Bool-cases (first == last)) [
  | inl e ↦ rw e (to_string-append first rest)
  | inr e ↦
      let split : (to_string first ++ (b'-' ∷ to_string last)) ++ rest
          ≡ to_string first ++ (b'-' ∷ (to_string last ++ rest)) =
        append_assoc (to_string first) (b'-' ∷ to_string last) rest in
      rw (e, split)
        (omega (
          arith,
          to_string-append first (b'-' ∷ (to_string last ++ rest)),
          to_string-append last rest,
        ))
]

length-nonempty : (s : Bytes) → 0 < length s → s ≢ []
length-nonempty [] h = absurd (omega (arith, h))
length-nonempty (c ∷ s) h = λ e. cc

ends : (fuel count : ℕ) → count_from fuel (pos count) (skip_comma []) ≡ some (pos (count + 0))
unfolding count_from skip_comma
ends zero count = ap (λ n. some (pos n)) (omega arith)
ends (suc fuel) count = ap (λ n. some (pos n)) (omega arith)

count_from-written :
    (rs : List (ℕ × ℕ)) (fuel count : ℕ)
    → Ranges rs
    → count + total rs < 2 ^ 31
    → length (written rs) ≤ fuel
    → count_from fuel (pos count) (written rs) ≡ some (pos (count + total rs))
unfolding written total skip_comma
count_from-written [] fuel count ok fits h = ends fuel count
count_from-written (r ∷ []) zero count ok fits h =
    absurd (omega (arith, h, range-length r.0 r.1 [], ap length (append-nil (range_text r.0 r.1))))
count_from-written (r ∷ []) (suc fuel) count ok fits h =
    let text = range_text r.0 r.1 in
    let read = read_cpus-range r.0 r.1 [] ok.0.0 ok.0.1 tt in
    let bare : text ++ [] ≡ text = append-nil text in
    count_round fuel count r.0 r.1 text []
      (length-nonempty text (omega (arith, ap length bare, range-length r.0 r.1 []))) ok.0.0 ok.0.1
      (omega (arith, fits)) (ap read_cpus (sym bare) ∙ read)
    ∙ ends fuel (count + (r.1 - r.0 + 1))
    ∙ ap (λ n. some (pos n)) (omega arith)
count_from-written (r ∷ q ∷ rs) zero count ok fits h =
    absurd (omega (arith, h, range-length r.0 r.1 (b',' ∷ written (q ∷ rs))))
count_from-written (r ∷ q ∷ rs) (suc fuel) count ok fits h =
    let rest = written (q ∷ rs) in
    let text = range_text r.0 r.1 ++ (b',' ∷ rest) in
    let size = range-length r.0 r.1 (b',' ∷ rest) in
    count_round fuel count r.0 r.1 text (b',' ∷ rest) (length-nonempty text (omega (arith, size)))
      ok.0.0 ok.0.1 (omega (arith, fits)) (read_cpus-range r.0 r.1 (b',' ∷ rest) ok.0.0 ok.0.1 refl)
    ∙ count_from-written (q ∷ rs) fuel (count + (r.1 - r.0 + 1)) ok.1 (omega (arith, fits))
        (omega (arith, h, size))
    ∙ ap (λ n. some (pos n)) (omega arith)

-- A list of ranges of CPUs, each written as one number or as two with a dash, and with commas between
-- them, is counted in full by count_cpu_list, if each range is not empty and ends below the largest
-- `int`, and all of them together count fewer than 2^31 CPUs; and as many rounds of its loop as the
-- text has bytes are enough.
pub count_cpu_list-written :
    (rs : List (ℕ × ℕ))
    → Ranges rs
    → total rs < 2 ^ 31
    → count_cpu_list (written rs) ≡ some (pos (total rs))
unfolding count_cpu_list
count_cpu_list-written rs ok fits =
    count_from-written rs (length (written rs)) 0 ok (omega (arith, fits)) (omega arith)
    ∙ ap (λ n. some (pos n)) (omega arith)
