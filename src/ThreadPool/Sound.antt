-- ===== src/ThreadPool/Sound.antt =====
-- common/sys/thread_pool.cpp: the texts that parse_thread_pool accepts.
use cpufb.Base.{
  Bool-cases, Option-cases, ◌==◌, inl, inr, ◌*◌, ℕ, zero, suc, ◌+◌, ◌-◌, ◌≤◌, ◌≡◌, refl, sym, ap,
  subst, ◌∙◌, List, [], ◌∷◌, ◌++◌, Option, some, ◌⊎◌, arith, Bytes, true, max_int, length,
  length-append, All, append_assoc,
}
use mathlib.Core.List.{cons-ne-nil}
use cpufb.Text.Decimal.{is_digit, IsDigit, value}
use cpufb.ThreadPool.Parse.{
  max_entries, scan_id, read_id, read_range, read_entry, after_entry, entries, parse_thread_pool,
}
use cpufb.ThreadPool.Grammar.{
  CpuId, Entry, single, range, Body, last, more, Denotes, cpus, length-cpus_from,
}

-- Whatever the loop accepts is a run of digits with its true value.
record Scanned (s : Bytes) (n m : ℕ) (rest : Bytes) : Type 0 where
  text : Bytes
  split : s ≡ text ++ rest
  digits : All IsDigit text
  spells : m ≡ value n text
  fits : m ≤ max_int

scan_id-Scanned :
    (s : Bytes) (n m : ℕ) (rest : Bytes)
    → n ≤ max_int
    → scan_id s n ≡ some (m, rest)
    → Scanned s n m rest
unfolding scan_id value
scan_id-Scanned [] n m rest h e = record {
  text = [];
  split = ground arith;
  digits = tt;
  spells = ground arith;
  fits = ground arith;
}
scan_id-Scanned (c ∷ s) n m rest h e = elim (Bool-cases (is_digit c)) [
  | inr other ↦ record {
    text = [];
    split = ground arith;
    digits = tt;
    spells = ground arith;
    fits = ground arith;
  }
  | inl digit ↦
      let d = c - b'0' in
      let bound : n * 10 + d ≤ max_int = ground arith in
      let r = scan_id-Scanned s (n * 10 + d) m rest bound (ground arith) in
      record {
        text = c ∷ r.text;
        split = ap (λ x. c ∷ x) r.split;
        digits = (ground arith, r.digits);
        spells = r.spells;
        fits = r.fits;
      }
]

-- An accepted number stands at the head of the text.
record Headed (s : Bytes) (n : ℕ) (rest : Bytes) : Type 0 where
  text : Bytes
  split : s ≡ text ++ rest
  id : CpuId text n

read_id-Headed : (s : Bytes) (n : ℕ) (rest : Bytes) → read_id s ≡ some (n, rest) → Headed s n rest
unfolding read_id scan_id value
read_id-Headed [] n rest e = cc
read_id-Headed (c ∷ s) n rest e =
    let digit : is_digit c ≡ true = ground arith in
    let r = scan_id-Scanned s (c - b'0') n rest (ground arith) (ground arith) in
    record {
      text = c ∷ r.text;
      split = ap (λ x. c ∷ x) r.split;
      id = record {
        digits = (ground arith, r.digits);
        nonempty = cons-ne-nil _ _;
        spells = ap (λ m. value m r.text) (omega arith) ∙ sym r.spells;
        fits = r.fits;
      };
    }

-- An accepted entry stands at the head of the text.
record HasEntry (s : Bytes) (left right : ℕ) (rest : Bytes) : Type 0 where
  text : Bytes
  split : s ≡ text ++ rest
  entry : Entry text left right
  ordered : left ≤ right

read_range-HasEntry :
    (a s rest : Bytes) (left l right : ℕ)
    → CpuId a left
    → read_range left s ≡ some (l, right, rest)
    → (l ≡ left) × HasEntry (a ++ s) left right rest
unfolding read_range
read_range-HasEntry a [] rest left l right v e = (
  ground arith,
  record {
    text = a;
    split = ground arith;
    entry = single v (ground arith);
    ordered = ground arith;
  },
)
read_range-HasEntry a (c ∷ s) rest left l right v e = elim (Bool-cases (c == b'-')) [
  | inr other ↦ (
    ground arith,
    record {
      text = a;
      split = ground arith;
      entry = single v (ground arith);
      ordered = ground arith;
    },
  )
  | inl dash ↦ elim (Option-cases (read_id s)) [
    | inl none_read ↦ absurd (ground arith)
    | inr ((m, t), read) ↦
        let r = read_id-Headed s m t read in
        let same : (l ≡ left) × (m ≡ right) × (t ≡ rest) × (left ≤ right) = ground arith in
        (
          same.0,
          record {
            text = a ++ (b'-' ∷ r.text);
            split = ground (arith, r.split, append_assoc a (b'-' ∷ r.text) t);
            entry = range a r.text refl v (subst (CpuId r.text) same.1 r.id) same.3;
            ordered = same.3;
          },
        )
  ]
]

read_entry-HasEntry :
    (s rest : Bytes) (left right : ℕ)
    → read_entry s ≡ some (left, right, rest)
    → HasEntry s left right rest
unfolding read_entry
read_entry-HasEntry s rest left right e = elim (Option-cases (read_id s)) [
  | inl unread ↦ absurd (ground arith)
  | inr ((m, t), read) ↦
      let r = read_id-Headed s m t read in
      let (same, h) =
        read_range-HasEntry r.text t rest m left right r.id (rw (read, read_entry) at e) in
      record {
        text = h.text;
        split = r.split ∙ h.split;
        entry = subst (λ l. Entry h.text l right) (sym same) h.entry;
        ordered = subst (λ l. l ≤ right) (sym same) h.ordered;
      }
]

-- What may follow an entry.
after_entry-cases :
    (again : List ℕ → Bytes → Option (List ℕ)) (parsed zs : List ℕ) (rest : Bytes)
    → after_entry again parsed rest ≡ some zs
    → ((rest ≡ b']' ∷ []) × (zs ≡ parsed))
      ⊎ ((r : Bytes) × (rest ≡ b',' ∷ r) × (again parsed r ≡ some zs))
unfolding after_entry
after_entry-cases again parsed zs [] h = absurd (ground arith)
after_entry-cases again parsed zs (c ∷ []) h = elim (Bool-cases (c == b']')) [
  | inl e ↦ inl (ground arith, ground arith)
  | inr e ↦ inr ([], ground arith, ground arith)
]
after_entry-cases again parsed zs (c ∷ d ∷ r) h = inr (d ∷ r, ground arith, ground arith)

-- What the loop accepts is in the grammar, and stays within the limit.
record Accepted (parsed : List ℕ) (s : Bytes) (zs : List ℕ) : Type 0 where
  xs : List ℕ
  body : Body s xs
  adds : zs ≡ parsed ++ xs
  fits : length zs ≤ max_entries

entries-Accepted :
    (fuel : ℕ) (parsed : List ℕ) (s : Bytes) (zs : List ℕ)
    → length parsed ≤ max_entries
    → entries fuel parsed s ≡ some zs
    → Accepted parsed s zs
unfolding entries
entries-Accepted zero parsed s zs k h = absurd (ground arith)
entries-Accepted (suc fuel) parsed [] zs k h = absurd (ground arith)
entries-Accepted (suc fuel) parsed (c ∷ s) zs k h = elim (Option-cases (read_entry (c ∷ s))) [
  | inl unread ↦ absurd (ground arith)
  | inr ((left, right, rest), read) ↦
      let r = read_entry-HasEntry (c ∷ s) rest left right read in
      let done = parsed ++ cpus left right in
      let size : length done ≡ length parsed + (right - left + 1) =
        length-append parsed (cpus left right)
        ∙ ap (λ n. length parsed + n) (length-cpus_from left (right - left + 1)) in
      let round : (length done ≤ max_entries) × (after_entry (entries fuel) done rest ≡ some zs) =
        ground arith in
      elim (after_entry-cases (entries fuel) done zs rest round.1) [
        | inl (closed, same) ↦ record {
          xs = cpus left right;
          body = last r.text left right r.entry (rw (← closed) r.split) refl;
          adds = same;
          fits = rw same round.0;
        }
        | inr (next, comma, again) ↦
            let q = entries-Accepted fuel done next zs round.0 again in
            record {
              xs = cpus left right ++ q.xs;
              body = more r.text next left right q.xs r.entry q.body (rw (← comma) r.split) refl;
              adds = q.adds ∙ append_assoc parsed (cpus left right) q.xs;
              fits = q.fits;
            }
      ]
]

pub parse_thread_pool_sound :
    (text : Bytes) (xs : List ℕ) → parse_thread_pool text ≡ some xs → Denotes text xs
unfolding parse_thread_pool
parse_thread_pool_sound [] xs h = absurd (ground arith)
parse_thread_pool_sound (c ∷ s) xs h =
    let q = entries-Accepted (suc (length s)) [] s xs (omega arith) (ground arith) in
    record {
      body = s;
      opens = ground arith;
      entries = subst (Body s) (sym q.adds) q.body;
      fits = q.fits;
    }
