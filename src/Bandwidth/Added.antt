-- ===== src/Bandwidth/Added.antt =====
-- common/cache/memory_bandwidth.cpp: the rows that are added to the cache table.
use cpufb.Base.{
  ℕ, zero, suc, ◌+◌, ◌-◌, ◌*◌, ◌/◌, ◌≡◌, ◌≤◌, ◌<◌, refl, sym, ap, ◌∙◌, List, [], ◌∷◌, ◌++◌, Option,
  none, some, false, ltb, ◌==◌, if◌then◌else◌, ◌>>=◌, arith, Bytes, codes, length, replicate, take,
  append-nil, append_assoc, length-append, length-replicate, Bool-cases, ◌⊎◌, inl, inr,
}
use cpufb.Text.Decimal.{to_string}
use cpufb.Table.{Table, add_one_item}
use cpufb.Table.Layout.{IsValid, add_one_item-IsValid}
use cpufb.Doubles.{Doubles}
use cpufb.Bandwidth.Workset.{Workset}
use cpufb.Bandwidth.Streams.{KernelSpec, BandwidthReport, StreamError, Outcome, measured, failed}
use cpufb.Bandwidth.Rows.{
  row_of, add_row, bandwidth_cells, write_allocate_cells, append_failure_row, cores_text,
  append_cache_bandwidth_row, append_outcome, append_store_row, append_memory_store_rows,
  append_l3_row, append_memory_rows, append_cache_memory_bandwidth, memory_item,
}

-- The result is there, and its table is the old one, still well formed, with `low` to `high` rows more.
pub record Adds {ℓ} {A : Type ℓ} (table : A → Table) (low high : ℕ) (t : Table) (o : Option A)
    : Type ℓ where
  pub result : A
  pub there : o ≡ some result
  pub valid : IsValid (table result)
  pub columns : (table result).col ≡ t.col
  pub rows : List (List Bytes)
  pub contents : (table result).contents ≡ t.contents ++ rows
  pub bounded : (low ≤ length rows) × (length rows ≤ high)

abbrev pub itself : Table → Table
itself t = t

abbrev pub table_of {ℓ} : {F : Type ℓ} → Table × F → Table
table_of x = x.0

pub none-Adds {ℓ} :
    {A : Type ℓ} (table : A → Table) (x : A) → IsValid (table x) → Adds table 0 0 (table x) (some x)
none-Adds table x v = record {
  result = x;
  there = refl;
  valid = v;
  columns = refl;
  rows = [];
  contents = sym (append-nil (table x).contents);
  bounded = (omega arith, omega arith);
}

one-Adds :
    (t : Table) (item : List Bytes)
    → IsValid t
    → t.col ≤ length item
    → Adds itself 1 1 t (add_one_item t item)
one-Adds t item v h =
    let (u, there, columns, contents, valid) = add_one_item-IsValid t item v h in
    record {
      result = u;
      there = there;
      valid = valid;
      columns = columns;
      rows = item ∷ [];
      contents = contents;
      bounded = (omega arith, omega arith);
    }

module _ {ℓ κ} {A : Type ℓ} {B : Type κ} (first : A → Table) (second : B → Table) where
  pub chain-Adds :
      (a b c d : ℕ) (t : Table) (o : Option A) (f : A → Option B)
      → Adds first a b t o
      → ((x : A) → IsValid (first x) → (first x).col ≡ t.col → Adds second c d (first x) (f x))
      → Adds second (a + c) (b + d) t (o >>= f)
  chain-Adds a b c d t o f r s =
      let q = s r.result r.valid r.columns in
      record {
        result = q.result;
        there = rw r.there q.there;
        valid = q.valid;
        columns = q.columns ∙ r.columns;
        rows = r.rows ++ q.rows;
        contents = q.contents ∙ ap (◌++ q.rows) r.contents ∙ append_assoc t.contents r.rows q.rows;
        bounded = (
          omega (arith, length-append r.rows q.rows, r.bounded.0, q.bounded.0),
          omega (arith, length-append r.rows q.rows, r.bounded.1, q.bounded.1),
        );
      }

pub widen-Adds {ℓ} :
    {A : Type ℓ} (table : A → Table) (a b low high : ℕ) (t : Table) (o : Option A)
    → low ≤ a
    → b ≤ high
    → Adds table a b t o
    → Adds table low high t o
widen-Adds table a b low high t o h k r = record {
  result = r.result;
  there = r.there;
  valid = r.valid;
  columns = r.columns;
  rows = r.rows;
  contents = r.contents;
  bounded = (omega (arith, h, r.bounded.0), omega (arith, k, r.bounded.1));
}

pub add_row-Adds :
    (t : Table) (cells : List Bytes)
    → IsValid t
    → length cells ≤ t.col
    → Adds itself 1 1 t (add_row t cells)
unfolding add_row row_of
add_row-Adds t cells v h =
    let enough : ltb t.col (length cells) ≡ false = ground (arith, h) in
    rw enough (
      one-Adds t _ v (
        omega (
          arith,
          h,
          length-append cells (replicate (t.col - length cells) []),
          length-replicate {A = Bytes} (t.col - length cells) [],
        )))

length-take : (n : ℕ) (xs : List Bytes) → n ≤ length xs → length (take n xs) ≡ n
length-take zero xs h = refl
length-take (suc n) [] h = absurd (omega (arith, h))
length-take (suc n) (x ∷ xs) h = ap suc (length-take n xs (omega (arith, h)))

failure-Adds :
    (t : Table) (item : Bytes)
    → IsValid t
    → 0 < t.col
    → Adds itself 1 1 t (append_failure_row t item)
unfolding append_failure_row
failure-Adds t item v h =
    let some_columns : (t.col == 0) ≡ false = ground (arith, h) in
    let dashes = item ∷ replicate (t.col - 1) (codes "-") in
    let cells = take (t.col - 1) dashes in
    rw some_columns (
      one-Adds t (cells ++ codes "not measured (see stderr)" ∷ []) v (
        omega (
          arith,
          h,
          length-append cells (codes "not measured (see stderr)" ∷ []),
          length-take (t.col - 1) dashes (omega (arith, length-replicate (t.col - 1) (codes "-"))),
        )))

Outcome-cases {ℓ} :
    {F : Type ℓ} (o : Outcome F)
    → ((report : BandwidthReport F) × (o ≡ measured report))
      ⊎ ((error : StreamError) × (o ≡ failed error))
Outcome-cases (measured report) = inl (report, refl)
Outcome-cases (failed error) = inr (error, refl)

module _ {ℓ} {F : Type ℓ} (fl : Doubles F) (first : ℕ) (others : List ℕ) where
  cores : ℕ → Bytes
  cores count =
      if count == 1 then codes "core " ++ to_string first else to_string count ++ codes " cores"

  row-Adds :
      (t : Table) (item : Bytes) (report : BandwidthReport F)
      → IsValid t
      → 6 ≤ t.col
      → Adds itself 1 1 t (append_cache_bandwidth_row fl t item (first ∷ others) report)
  unfolding append_cache_bandwidth_row cores_text cores
  row-Adds t item report v h =
      add_row-Adds t (bandwidth_cells fl item (cores report.stream_count) report) v
        (unfold bandwidth_cells in h)

  no_rate-Adds :
      (t : Table) (item : Bytes)
      → IsValid t
      → 6 ≤ t.col
      → Adds table_of 1 1 t (do next ← append_failure_row t item; some (next, fl.literal 0))
  no_rate-Adds t item v h =
      chain-Adds itself table_of 1 1 0 0 t (append_failure_row t item)
        (λ next. some (next, fl.literal 0)) (failure-Adds t item v (omega (arith, h)))
        (λ u w c. none-Adds table_of (u, fl.literal 0) w)

  module _ (measure : KernelSpec → Workset → ℕ → Outcome F) where
    outcome-Adds :
        (t : Table) (item : Bytes) (o : Outcome F)
        → IsValid t
        → 6 ≤ t.col
        → Adds table_of 1 1 t (append_outcome fl measure (first ∷ others) t item o)
    unfolding append_outcome
    outcome-Adds t item (measured report) v h =
        chain-Adds itself table_of 1 1 0 0 t _ _ (row-Adds t item report v h)
          (λ u w c. none-Adds table_of (u, report.median.gb_per_second) w)
    outcome-Adds t item (failed error) v h = no_rate-Adds t item v h

    store-Adds :
        (read : Workset) (t : Table) (item : Bytes) (kernel : Option KernelSpec)
        → IsValid t
        → 6 ≤ t.col
        → Adds table_of 0 1 t (append_store_row fl measure (first ∷ others) read t item kernel)
    unfolding append_store_row
    store-Adds read t item none v h =
        widen-Adds table_of 0 0 0 1 t _ (omega arith) (omega arith)
          (none-Adds table_of (t, fl.literal 0) v)
    store-Adds read t item (some kernel) v h =
        let name = memory_item item (length (first ∷ others)) in
        let bytes = read.bytes / kernel.bytes_per_block * kernel.bytes_per_block in
        let workset : Workset = record { bytes = bytes; source = read.source } in
        let there = outcome-Adds t name (measure kernel workset 1) v h in
        widen-Adds table_of 1 1 0 1 t _ (omega arith) (omega arith)
          (elim (Bool-cases (bytes == 0)) [
            | inl e ↦ rw e (no_rate-Adds t name v h)
            | inr e ↦ rw e there
          ])

    store_rows-Adds :
        (store part nontemporal : Option KernelSpec) (t : Table) (read : Workset)
        → IsValid t
        → 6 ≤ t.col
        → Adds itself 0 4 t
            (append_memory_store_rows fl measure (first ∷ others) store part nontemporal t read)
    unfolding append_memory_store_rows cores_text cores
    store_rows-Adds none part nontemporal t read v h =
        widen-Adds itself 0 0 0 4 t _ (omega arith) (omega arith) (none-Adds itself t v)
    store_rows-Adds (some store) part nontemporal t read v h =
        chain-Adds table_of itself 0 1 0 3 t _ _
          (store-Adds read t (codes "sequential write bandwidth") (some store) v h)
          (λ x vx cx.
            chain-Adds table_of itself 0 1 0 2 x.0 _ _
              (store-Adds read x.0 (codes "partial-line write bandwidth") part vx
                (omega (arith, cx, h)))
              (λ y vy cy.
                chain-Adds table_of itself 0 1 0 1 y.0 _ _
                  (store-Adds read y.0 (codes "non-temporal write bandwidth") nontemporal vy
                    (omega (arith, cx, cy, h)))
                  (λ z vz cz. widen-Adds itself 1 1 0 1 z.0 _ (omega arith) (omega arith) (
                    add_row-Adds z.0
                      (write_allocate_cells fl (cores (length (first ∷ others))) read.bytes x.1 y.1
                        z.1)
                      vz (unfold write_allocate_cells in omega (arith, cx, cy, cz, h))))))

    l3-Adds :
        (kernel : KernelSpec) (workset : Option Workset) (t : Table)
        → IsValid t
        → 6 ≤ t.col
        → Adds itself 0 1 t (append_l3_row fl measure (first ∷ others) kernel workset t)
    unfolding append_l3_row
    l3-Adds kernel none t v h =
        widen-Adds itself 0 0 0 1 t _ (omega arith) (omega arith) (none-Adds itself t v)
    l3-Adds kernel (some workset) t v h =
        widen-Adds itself 1 1 0 1 t _ (omega arith) (omega arith)
          (elim (Outcome-cases (measure kernel workset 8)) [
            | inl (report, e) ↦ rw (append_l3_row, e) (row-Adds t _ report v h)
            | inr (error, e) ↦
                rw (append_l3_row, e)
                  (failure-Adds t (codes "L3 sequential read bandwidth") v (omega (arith, h)))
          ])

    memory-Adds :
        (kernel : KernelSpec) (store part nontemporal : Option KernelSpec)
        (workset : Option Workset) (t : Table)
        → IsValid t
        → 6 ≤ t.col
        → Adds itself 1 5 t
            (append_memory_rows fl measure (first ∷ others) kernel store part nontemporal workset t)
    unfolding append_memory_rows
    memory-Adds kernel store part nontemporal none t v h =
        widen-Adds itself 1 1 1 5 t _ (omega arith) (omega arith)
          (failure-Adds t (codes "Memory sequential read bandwidth") v (omega (arith, h)))
    memory-Adds kernel store part nontemporal (some workset) t v h =
        elim (Outcome-cases (measure kernel workset 1)) [
          | inl (report, e) ↦
              rw (append_memory_rows, e)
                (chain-Adds itself itself 1 1 0 4 t _ _ (row-Adds t _ report v h) (λ u w c.
                  store_rows-Adds store part nontemporal u workset w (omega (arith, c, h))))
          | inr (error, e) ↦
              rw (append_memory_rows, e)
                (widen-Adds itself 1 1 1 5 t _ (omega arith) (omega arith)
                  (failure-Adds t (codes "Memory sequential read bandwidth") v (omega (arith, h))))
        ]

    -- For any pool with a CPU and any table of at least six columns, append_cache_memory_bandwidth
    -- succeeds and keeps the table well formed, whichever streams fail or are skipped: its rows come
    -- behind the old ones, and they are at least one and at most six.
    pub append_cache_memory_bandwidth-Adds :
        (kernel : KernelSpec) (store part nontemporal : Option KernelSpec)
        (l3 memory : Option Workset) (t : Table)
        → IsValid t
        → 6 ≤ t.col
        → Adds itself 1 6 t (
            append_cache_memory_bandwidth fl measure
              (first ∷ others)
              kernel
              store
              part
              nontemporal
              l3
              memory
              t)
    unfolding append_cache_memory_bandwidth
    append_cache_memory_bandwidth-Adds kernel store part nontemporal l3 memory t v h =
        chain-Adds itself itself 0 1 1 5 t _ _ (l3-Adds kernel l3 t v h)
          (λ u w c. memory-Adds kernel store part nontemporal memory u w (omega (arith, c, h)))
