-- ===== src/Cli/Catalog.antt =====
-- common/cli.cpp: the catalog of benchmarks, pairing throughput and latency rows, and the search for
-- an instruction.
use cpufb.Base.{
  ℕ, suc, zero, List, [], ◌∷◌, ◌++◌, Option, none, some, Bool, false, not, ◌&&◌, ◌||◌, Bytes, codes,
  if◌then◌else◌, ltb, length, get_elem?, is_some,
}
use cpufb.Text.Bytes.{bytes_eq, contains, is_empty}
use cpufb.Text.Trim.{normalize_filter_value}
use cpufb.Cli.Options.{BenchmarkInfo}
use cpufb.Cli.Filter.{
  get_benchmark_test_type, is_compute_instruction_candidate, ends_with_case_insensitive,
}

-- The constructor.
unfoldable pub benchmark_info : Bytes → Bytes → Bytes → BenchmarkInfo
benchmark_info isa instruction metric = record {
  isa = isa;
  instruction = instruction;
  metric = metric;
  is_latency = ends_with_case_insensitive instruction (codes "_latency");
  pair_index = none;
}

abbrev pub set_pair : ℕ → Option ℕ → List BenchmarkInfo → List BenchmarkInfo
set_pair i pair [] = []
set_pair zero pair (item ∷ items) = record item { pair_index = pair } ∷ items
set_pair (suc i) pair (item ∷ items) = item ∷ set_pair i pair items

unfoldable pub is_compute : BenchmarkInfo → Bool
is_compute item = bytes_eq (get_benchmark_test_type item.metric) (codes "compute")

-- The tests of the inner loop: the second is the latency row of the first.
unfoldable pub is_latency_of : BenchmarkInfo → BenchmarkInfo → Bool
is_latency_of benchmark candidate =
    candidate.is_latency
    && is_compute candidate
    && bytes_eq candidate.instruction (benchmark.instruction ++ codes "_latency")
    && bytes_eq (normalize_filter_value candidate.isa) (normalize_filter_value benchmark.isa)

-- The inner loop, from an index on: a second candidate clears the index and ends it.
unfoldable pub find_latency : BenchmarkInfo → ℕ → List BenchmarkInfo → Option ℕ → Option ℕ
find_latency benchmark i [] latency_index = latency_index
find_latency benchmark i (candidate ∷ candidates) latency_index =
    let skip = find_latency benchmark (suc i) candidates latency_index in
    let take = find_latency benchmark (suc i) candidates (some i) in
    if not (is_latency_of benchmark candidate)
    then skip
    else if is_some latency_index
    then none
    else take

-- `pair_index < 0` of a row; a row that is not there counts as paired.
abbrev pub is_unpaired : Option BenchmarkInfo → Bool
is_unpaired none = false
is_unpaired (some item) = not (is_some item.pair_index)

-- The body of the outer loop.
unfoldable pub pair_one : ℕ → BenchmarkInfo → List BenchmarkInfo → List BenchmarkInfo
unfolding find_latency
pair_one k benchmark catalog =
    if benchmark.is_latency || not (is_compute benchmark)
    then catalog
    else elim (find_latency benchmark 0 catalog none) [
      | none ↦ catalog
      | some l ↦
          if is_unpaired (get_elem? catalog l)
          then set_pair l (some k) (set_pair k (some l) catalog)
          else catalog
    ]

abbrev pub pair_at : ℕ → List BenchmarkInfo → Option BenchmarkInfo → List BenchmarkInfo
pair_at k catalog none = catalog
pair_at k catalog (some benchmark) = pair_one k benchmark catalog

-- The outer loop; the number of rounds left is the fuel.
unfoldable pub pair_from : ℕ → ℕ → List BenchmarkInfo → List BenchmarkInfo
unfolding pair_one
pair_from k zero catalog = catalog
pair_from k (suc rounds) catalog =
    pair_from (suc k) rounds (pair_at k catalog (get_elem? catalog k))

unfoldable pub unpaired : List BenchmarkInfo → List BenchmarkInfo
unpaired [] = []
unpaired (item ∷ items) = record item { pair_index = none } ∷ unpaired items

unfoldable pub pair_benchmark_latencies : List BenchmarkInfo → List BenchmarkInfo
unfolding unpaired pair_from
pair_benchmark_latencies catalog = pair_from 0 (length catalog) (unpaired catalog)

-- The exact and the partial matches of a needle, from an index on.
unfoldable pub matches : Bytes → ℕ → List BenchmarkInfo → List ℕ × List ℕ
matches needle i [] = ([], [])
matches needle i (item ∷ items) =
    let rest = matches needle (suc i) items in
    let candidate = normalize_filter_value item.instruction in
    if not (is_compute_instruction_candidate item)
    then rest
    else if bytes_eq candidate needle
    then (i ∷ rest.0, rest.1)
    else if contains needle candidate
    then (rest.0, i ∷ rest.1)
    else rest

unfoldable pub find_compute_instruction_matches : Bytes → List BenchmarkInfo → List ℕ
unfolding matches
find_compute_instruction_matches instruction catalog =
    let needle = normalize_filter_value instruction in
    let found = matches needle 0 catalog in
    if is_empty needle then [] else if ltb 0 (length found.0) then found.0 else found.1

abbrev latency_row : Option BenchmarkInfo → Bool
latency_row none = false
latency_row (some item) = item.is_latency

abbrev pub pair_in_range : List BenchmarkInfo → Option ℕ → Option ℕ
pair_in_range catalog none = none
pair_in_range catalog (some pair) = if latency_row (get_elem? catalog pair) then some pair else none

-- `none` for -1, and where the index is behind the end.
unfoldable pub find_latency_pair_index : List BenchmarkInfo → ℕ → Option ℕ
find_latency_pair_index catalog index = elim (get_elem? catalog index) [
  | none ↦ none
  | some selected ↦ pair_in_range catalog selected.pair_index
]
