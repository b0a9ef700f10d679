-- ===== src/Cache/Curve/Tests.antt =====
-- common/cache/cache_curve.cpp: a small curve.
use cpufb.Base.{
  ℕ, ◌+◌, ◌-◌, ◌*◌, ◌/◌, ◌^◌, ◌≡◌, refl, List, [], ◌∷◌, Option, none, some, Bool, true, ltb, ◌==◌,
  ◌>>=◌,
}
use cpufb.Text.Decimal.{to_string}
use cpufb.Doubles.{Doubles}
use cpufb.Cache.Curve.{Functions, CacheLatencyPoint, CacheLevelEstimate, Plateau, find_plateaus}
use cpufb.Cache.Curve.Estimate.{estimate_cache_levels}
use cpufb.Cache.Curve.Ordered.{Estimated, estimate_cache_levels-Estimated}

-- Whole numbers for `double`, in thousandths; a quotient is in ones.
abbrev pub whole : Doubles ℕ
whole = record {
  less = ltb;
  equal = ◌==◌;
  plus = ◌+◌;
  times = λ a b. a * b / 1000;
  divide = λ a b. a * 1000 / b;
  literal = λ n. n * 1000;
  difference = λ a b. (a - b) * 1000;
  decimal = λ digits places. digits * 1000 / 10 ^ places;
  is_finite = λ x. true;
  fixed = λ digits x. to_string x;
}

-- What lies above 1 for its logarithm.
abbrev pub functions : Functions ℕ
functions = record {
  log = λ x. x - 1000;
  exp = λ x. x + 1000;
  cbrt = λ x. x;
  fabs = λ x. x;
  power = λ x y. x;
  minus = ◌-◌;
  to_uint64 = λ x. x / 1000;
}

abbrev pub point : ℕ → ℕ → CacheLatencyPoint ℕ
point bytes ns = record {
  working_set_bytes = bytes;
  latency_ns = ns * 1000;
  latency_cycles = ns * 3;
}

-- 1 ns up to 32 bytes, and 9 ns from 64 bytes on.
abbrev curve : List (CacheLatencyPoint ℕ)
curve = point 8 1 ∷ point 16 1 ∷ point 32 1 ∷ point 64 9 ∷ point 128 9 ∷ point 256 9 ∷ []

estimate_cache_levels-Estimated_example :
    Estimated whole functions curve 0 0 (estimate_cache_levels whole functions curve 18000)
estimate_cache_levels-Estimated_example =
    estimate_cache_levels-Estimated whole functions curve 18000

abbrev ends : List (Plateau ℕ) → List (ℕ × ℕ)
ends [] = []
ends (p ∷ ps) = (p.first, p.last) ∷ ends ps

two_plateaus :
    (do ps ← find_plateaus whole functions curve; some (ends ps)) ≡ some ((0, 2) ∷ (3, 5) ∷ [])
unfolding find_plateaus
two_plateaus = refl

abbrev capacities : List (CacheLevelEstimate ℕ) → List ℕ
capacities [] = []
capacities (l ∷ ls) = l.capacity_bytes ∷ capacities ls

abbrev seen : Option (List (CacheLevelEstimate ℕ) × Bool) → Option (List ℕ × Bool)
seen none = none
seen (some (levels, reached)) = some (capacities levels, reached)

one_level : seen (estimate_cache_levels whole functions curve 18000) ≡ some (32 ∷ [], true)
unfolding find_plateaus estimate_cache_levels
one_level = refl
