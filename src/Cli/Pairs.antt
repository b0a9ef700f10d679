-- ===== src/Cli/Pairs.antt =====
-- common/cli.cpp: the search of pair_benchmark_latencies for the latency row of a benchmark.
use cpufb.Base.{
  ℕ, suc, zero, ◌+◌, ◌≡◌, refl, List, [], ◌∷◌, Option, none, some, Bool, true, false, if◌then◌else◌,
  ◌==◌, get_elem?, arith, inl, inr, Bool-cases,
}
use cpufb.Cli.Options.{BenchmarkInfo}
use cpufb.Cli.Catalog.{set_pair, is_latency_of, find_latency}

unfoldable pub with_pair : Option ℕ → Option BenchmarkInfo → Option BenchmarkInfo
with_pair pair none = none
with_pair pair (some item) = some (record item { pair_index = pair })

pub get_elem?-set_pair :
    (i j : ℕ) (pair : Option ℕ) (items : List BenchmarkInfo)
    → get_elem? (set_pair i pair items) j
      ≡ (if i == j then with_pair pair (get_elem? items j) else get_elem? items j)
unfolding with_pair
get_elem?-set_pair i j pair [] = ground arith
get_elem?-set_pair zero zero pair (item ∷ items) = refl
get_elem?-set_pair zero (suc j) pair (item ∷ items) = ground arith
get_elem?-set_pair (suc i) zero pair (item ∷ items) = ground arith
get_elem?-set_pair (suc i) (suc j) pair (item ∷ items) =
    ground (arith, get_elem?-set_pair i j pair items)

-- The row at an index is the latency row of the benchmark.
abbrev pub hit : BenchmarkInfo → Option BenchmarkInfo → Bool
hit benchmark none = false
hit benchmark (some item) = is_latency_of benchmark item

-- Behind a candidate that was taken there is no other.
taken_same :
    (benchmark : BenchmarkInfo) (items : List BenchmarkInfo) (i f l : ℕ)
    → find_latency benchmark i items (some f) ≡ some l
    → f ≡ l
unfolding find_latency
taken_same benchmark [] i f l e = ground arith
taken_same benchmark (item ∷ items) i f l e = ground (arith, taken_same benchmark items (suc i) f l)

taken_none :
    (benchmark : BenchmarkInfo) (items : List BenchmarkInfo) (i f l j : ℕ)
    → find_latency benchmark i items (some f) ≡ some l
    → hit benchmark (get_elem? items j) ≡ false
unfolding find_latency
taken_none benchmark [] i f l j e = refl
taken_none benchmark (item ∷ items) i f l zero e = ground arith
taken_none benchmark (item ∷ items) i f l (suc j) e =
    ground (arith, taken_none benchmark items (suc i) f l j)

pub free_hit :
    (benchmark : BenchmarkInfo) (items : List BenchmarkInfo) (i l : ℕ)
    → find_latency benchmark i items none ≡ some l
    → (j : ℕ) × (i + j ≡ l) × (hit benchmark (get_elem? items j) ≡ true)
unfolding find_latency
free_hit benchmark [] i l e = cc
free_hit benchmark (item ∷ items) i l e = elim (Bool-cases (is_latency_of benchmark item)) [
  | inl h ↦ (zero, ground (arith, taken_same benchmark items (suc i) i l), h)
  | inr h ↦
      let r = free_hit benchmark items (suc i) l (ground arith) in
      (suc (r.0), omega (arith, r.1), r.2)
]

pub free_only :
    (benchmark : BenchmarkInfo) (items : List BenchmarkInfo) (i l j : ℕ)
    → find_latency benchmark i items none ≡ some l
    → hit benchmark (get_elem? items j) ≡ true
    → i + j ≡ l
unfolding find_latency
free_only benchmark [] i l j e h = cc
free_only benchmark (item ∷ items) i l zero e h =
    ground (arith, taken_same benchmark items (suc i) i l)
free_only benchmark (item ∷ items) i l (suc j) e h =
    ground (arith, free_only benchmark items (suc i) l j, taken_none benchmark items (suc i) i l j)
