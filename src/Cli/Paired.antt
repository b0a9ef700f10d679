-- ===== src/Cli/Paired.antt =====
-- common/cli.cpp: the pairs that pair_benchmark_latencies leaves.
use cpufb.Base.{
  Bool, ◌&&◌, ◌++◌, codes, subst, ℕ, suc, zero, ◌+◌, ◌≡◌, ◌≤◌, refl, ◌∙◌, sym, ap, List, [], ◌∷◌,
  Option, none, some, true, false, not, ◌||◌, ==→eq, length, get_elem?, is_some, arith,
  Option-cases, inl, inr, Bool-cases,
}
use cpufb.Text.Bytes.{bytes_eq, bytes_eq_refl, bytes_eq→eq}
use cpufb.Text.Trim.{normalize_filter_value}
use cpufb.Cli.Filter.{get_benchmark_test_type}
use cpufb.Cli.Options.{BenchmarkInfo}
use cpufb.Cli.Catalog.{
  is_compute, is_latency_of, find_latency, is_unpaired, pair_one, pair_at, pair_from, unpaired,
  pair_benchmark_latencies,
}
use cpufb.Cli.Pairs.{hit, free_hit, free_only}
use cpufb.Cli.Pairing.{
  pair_of, is_latency_row, is_latency_row_of, pair_index, is_latency, measures, paired,
  pair_index-paired, is_latency-paired, measures-paired,
}

-- The pairs go both ways, join a row and its latency row, and from `k` on only latency rows have one.
record Halfway (k : ℕ) (catalog : List BenchmarkInfo) : Type 0 where
  symmetric : (i j : ℕ) → pair_index catalog i ≡ some j → pair_index catalog j ≡ some i
  linked :
      (i j : ℕ)
      → pair_index catalog i ≡ some j
      → is_latency catalog i ≡ false
      → measures catalog i j ≡ true
  mixed :
      (i j : ℕ) → pair_index catalog i ≡ some j → is_latency catalog j ≡ not (is_latency catalog i)
  only :
      (i j m : ℕ)
      → pair_index catalog i ≡ some j
      → is_latency catalog i ≡ false
      → measures catalog i m ≡ true
      → m ≡ j
  ahead : (i : ℕ) → k ≤ i → is_latency catalog i ≡ false → pair_index catalog i ≡ none

step-Halfway :
    (k l : ℕ) (catalog : List BenchmarkInfo)
    → is_some (get_elem? catalog k) ≡ true
    → is_some (get_elem? catalog l) ≡ true
    → is_latency catalog k ≡ false
    → is_latency catalog l ≡ true
    → measures catalog k l ≡ true
    → ((m : ℕ) → measures catalog k m ≡ true → m ≡ l)
    → pair_index catalog l ≡ none
    → Halfway k catalog
    → Halfway (suc k) (paired k l catalog)
step-Halfway k l catalog hk hl tk tl m one free v =
    let at = λ (i : ℕ). pair_index-paired k l catalog i hk hl in
    let lat = is_latency-paired k l catalog in
    record {
      symmetric =
          λ i j h. ground (arith, at i, at j, v.symmetric i j, v.ahead k, ==→eq l i, ==→eq k i);
      linked = λ i j h t.
          ground (
            arith,
            at i,
            lat i,
            measures-paired k l catalog i j,
            v.linked i j,
            ==→eq l i,
            ==→eq k i,
          );
      mixed = λ i j h. ground (arith, at i, lat i, lat j, v.mixed i j, ==→eq l i, ==→eq k i);
      only = λ i j m h t e. ground (
        arith,
        at i,
        lat i,
        measures-paired k l catalog i m,
        v.only i j m,
        one m,
        ==→eq l i,
        ==→eq k i,
      );
      ahead = λ i h t. ground (arith, at i, lat i, v.ahead i, ==→eq l i, ==→eq k i);
    }

skip-Halfway : (k : ℕ) (catalog : List BenchmarkInfo) → Halfway k catalog → Halfway (suc k) catalog
skip-Halfway k catalog v = record {
  symmetric = v.symmetric;
  linked = v.linked;
  mixed = v.mixed;
  only = v.only;
  ahead = λ i h t. v.ahead i (omega arith) t;
}

hit-is_latency_row :
    (benchmark : BenchmarkInfo) (row : Option BenchmarkInfo)
    → hit benchmark row ≡ true
    → (is_some row ≡ true) × (is_latency_row row ≡ true)
unfolding is_latency_row is_latency_of
hit-is_latency_row benchmark none h = cc
hit-is_latency_row benchmark (some item) h = (refl, ground arith)

is_unpaired→pair_of : (row : Option BenchmarkInfo) → is_unpaired row ≡ true → pair_of row ≡ none
unfolding pair_of
is_unpaired→pair_of none h = cc
is_unpaired→pair_of (some item) h = ground arith

-- A row that was found is paired with the one where the loop stands.
take-Halfway :
    (k l : ℕ) (benchmark : BenchmarkInfo) (catalog : List BenchmarkInfo)
    → get_elem? catalog k ≡ some benchmark
    → benchmark.is_latency ≡ false
    → find_latency benchmark 0 catalog none ≡ some l
    → is_unpaired (get_elem? catalog l) ≡ true
    → Halfway k catalog
    → Halfway (suc k) (paired k l catalog)
unfolding is_latency_row is_latency_row_of
take-Halfway k l benchmark catalog at throughput found free v =
    let same = λ (m : ℕ). ap (λ x. is_latency_row_of x (get_elem? catalog m)) at in
    let r = free_hit benchmark catalog 0 l found in
    let same_index : r.0 ≡ l = omega (arith, r.1) in
    let there = subst (λ i. hit benchmark (get_elem? catalog i) ≡ true) same_index r.2 in
    let row = hit-is_latency_row benchmark (get_elem? catalog l) there in
    step-Halfway k l catalog (ap is_some at) row.0 (ap is_latency_row at ∙ throughput) row.1
      (same l ∙ there)
      (λ m h. omega (arith, free_only benchmark catalog 0 l m found (sym (same m) ∙ h)))
      (is_unpaired→pair_of (get_elem? catalog l) free) v

-- The body of the outer loop, at the row where it stands.
pair_one-Halfway :
    (k : ℕ) (benchmark : BenchmarkInfo) (catalog : List BenchmarkInfo)
    → get_elem? catalog k ≡ some benchmark
    → Halfway k catalog
    → Halfway (suc k) (pair_one k benchmark catalog)
unfolding pair_one
pair_one-Halfway k benchmark catalog at v =
    elim (Bool-cases (benchmark.is_latency || not (is_compute benchmark))) [
      | inl e ↦ rw e (skip-Halfway k catalog v)
      | inr e ↦ elim (Option-cases (find_latency benchmark 0 catalog none)) [
        | inl f ↦ rw (e, f) (skip-Halfway k catalog v)
        | inr (l, f) ↦ elim (Bool-cases (is_unpaired (get_elem? catalog l))) [
          | inl u ↦ rw (e, f, u) (take-Halfway k l benchmark catalog at (ground arith) f u v)
          | inr u ↦ rw (e, f, u) (skip-Halfway k catalog v)
        ]
      ]
    ]

pair_at-Halfway :
    (k : ℕ) (catalog : List BenchmarkInfo)
    → Halfway k catalog
    → Halfway (suc k) (pair_at k catalog (get_elem? catalog k))
pair_at-Halfway k catalog v = elim (Option-cases (get_elem? catalog k)) [
  | inl e ↦ rw e (skip-Halfway k catalog v)
  | inr (benchmark, e) ↦ rw e (pair_one-Halfway k benchmark catalog e v)
]

pair_from-Halfway :
    (rounds k : ℕ) (catalog : List BenchmarkInfo)
    → Halfway k catalog
    → Halfway (rounds + k) (pair_from k rounds catalog)
unfolding pair_from
pair_from-Halfway zero k catalog v = subst (λ n. Halfway n catalog) (omega arith) v
pair_from-Halfway (suc rounds) k catalog v =
    subst (λ n. Halfway n (pair_from k (suc rounds) catalog)) (omega arith)
      (pair_from-Halfway rounds (suc k) _ (pair_at-Halfway k catalog v))

pair_index-unpaired :
    (catalog : List BenchmarkInfo) (i : ℕ) → pair_index (unpaired catalog) i ≡ none
unfolding unpaired pair_of
pair_index-unpaired [] i = refl
pair_index-unpaired (item ∷ items) zero = refl
pair_index-unpaired (item ∷ items) (suc i) = pair_index-unpaired items i

unpaired-Halfway : (catalog : List BenchmarkInfo) → Halfway 0 (unpaired catalog)
unpaired-Halfway catalog =
    let at = pair_index-unpaired catalog in
    record {
      symmetric = λ i j h. ground (arith, at i);
      linked = λ i j h. ground (arith, at i);
      mixed = λ i j h. ground (arith, at i);
      only = λ i j m h. ground (arith, at i);
      ahead = λ i h t. at i;
    }

-- A latency row of a benchmark: a latency row of a compute benchmark, with the name of the benchmark
-- and its ISA.
pub record IsLatencyRow (benchmark candidate : BenchmarkInfo) : Type 0 where
  pub latency : candidate.is_latency ≡ true
  pub compute : get_benchmark_test_type candidate.metric ≡ codes "compute"
  pub name : candidate.instruction ≡ benchmark.instruction ++ codes "_latency"
  pub isa : normalize_filter_value candidate.isa ≡ normalize_filter_value benchmark.isa

-- The same of the rows at two indices.
pub record Joins (catalog : List BenchmarkInfo) (i j : ℕ) : Type 0 where
  pub benchmark : BenchmarkInfo
  pub candidate : BenchmarkInfo
  pub first : get_elem? catalog i ≡ some benchmark
  pub second : get_elem? catalog j ≡ some candidate
  pub row : IsLatencyRow benchmark candidate

-- The pairs go both ways, between a throughput row and a latency row; the latency row of a pair is one
-- of its throughput row, and there is no other one.
pub record IsPaired (catalog : List BenchmarkInfo) : Type 0 where
  pub symmetric : (i j : ℕ) → pair_index catalog i ≡ some j → pair_index catalog j ≡ some i
  pub mixed :
      (i j : ℕ) → pair_index catalog i ≡ some j → is_latency catalog j ≡ not (is_latency catalog i)
  pub linked :
      (i j : ℕ) → pair_index catalog i ≡ some j → is_latency catalog i ≡ false → Joins catalog i j
  pub only :
      (i j m : ℕ)
      → pair_index catalog i ≡ some j
      → is_latency catalog i ≡ false
      → Joins catalog i m
      → m ≡ j

and_both : (a b : Bool) → (a && b) ≡ true → (a ≡ true) × (b ≡ true)
and_both true b h = (refl, h)
and_both false b h = cc

is_latency_of-IsLatencyRow : (b c : BenchmarkInfo) → is_latency_of b c ≡ true → IsLatencyRow b c
unfolding is_latency_of is_compute
is_latency_of-IsLatencyRow b c h =
    let name = b.instruction ++ codes "_latency" in
    let isa = bytes_eq (normalize_filter_value c.isa) (normalize_filter_value b.isa) in
    let three = and_both (c.is_latency && is_compute c && bytes_eq c.instruction name) isa h in
    let two = and_both (c.is_latency && is_compute c) (bytes_eq c.instruction name) three.0 in
    let one = and_both c.is_latency (is_compute c) two.0 in
    record {
      latency = one.0;
      compute = bytes_eq→eq (get_benchmark_test_type c.metric) (codes "compute") one.1;
      name = bytes_eq→eq c.instruction name two.1;
      isa = bytes_eq→eq (normalize_filter_value c.isa) (normalize_filter_value b.isa) three.1;
    }

IsLatencyRow-is_latency_of : (b c : BenchmarkInfo) → IsLatencyRow b c → is_latency_of b c ≡ true
unfolding is_latency_of is_compute
IsLatencyRow-is_latency_of b c v =
    rw
      (
        v.latency,
        v.compute,
        v.name,
        v.isa,
        bytes_eq_refl (b.instruction ++ codes "_latency"),
        bytes_eq_refl (normalize_filter_value b.isa),
        bytes_eq_refl (codes "compute"),
      )
      refl

measures-Joins :
    (catalog : List BenchmarkInfo) (i j : ℕ) → measures catalog i j ≡ true → Joins catalog i j
unfolding is_latency_row_of
measures-Joins catalog i j h = elim (Option-cases (get_elem? catalog i)) [
  | inl e ↦ absurd (ground (arith, h, e))
  | inr (b, e) ↦ elim (Option-cases (get_elem? catalog j)) [
    | inl f ↦ absurd (ground (arith, h, e, f))
    | inr (c, f) ↦ record {
      benchmark = b;
      candidate = c;
      first = e;
      second = f;
      row = is_latency_of-IsLatencyRow b c (sym (rw (e, f) refl) ∙ h);
    }
  ]
]

Joins-measures :
    (catalog : List BenchmarkInfo) (i j : ℕ) → Joins catalog i j → measures catalog i j ≡ true
unfolding is_latency_row_of
Joins-measures catalog i j v =
    rw (v.first, v.second) (IsLatencyRow-is_latency_of v.benchmark v.candidate v.row)

-- Every pair goes both ways, and joins a throughput row with a latency row of its name and its ISA,
-- which is the only one that has them.
pub pair_benchmark_latencies-IsPaired :
    (catalog : List BenchmarkInfo) → IsPaired (pair_benchmark_latencies catalog)
unfolding pair_benchmark_latencies
pair_benchmark_latencies-IsPaired catalog =
    let v = pair_from-Halfway (length catalog) 0 (unpaired catalog) (unpaired-Halfway catalog) in
    let done = pair_benchmark_latencies catalog in
    record {
      symmetric = v.symmetric;
      mixed = v.mixed;
      linked = λ i j h t. measures-Joins done i j (v.linked i j h t);
      only = λ i j m h t w. v.only i j m h t (Joins-measures done i m w);
    }
