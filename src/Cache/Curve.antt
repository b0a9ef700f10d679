-- ===== src/Cache/Curve.antt =====
-- common/cache/cache_curve.hpp and .cpp: the plateaus of a latency curve and the levels that are read from
-- them. Points are in the order of the sweep. `none` is a read out of bounds.
pub mod Estimate
pub mod Median
pub mod Steady
pub mod Ordered
pub mod Tests
use cpufb.Base.{
  ℕ, zero, suc, ◌+◌, ◌-◌, ◌*◌, ◌/◌, ◌%◌, List, [], ◌∷◌, ◌++◌, map, Option, none, some, Bool, true,
  false, not, ◌&&◌, ◌||◌, Bytes, codes, ltb, leb, ◌==◌, if◌then◌else◌, ◌>>=◌, length, get_elem?,
  take, drop,
}
use cpufb.Doubles.{Doubles, at_most}
use cpufb.Text.Decimal.{to_string}

-- The functions of <cmath>, and the cast to `uint64_t`.
pub record Functions {ℓ} (F : Type ℓ) : Type ℓ where
  pub log : F → F
  pub exp : F → F
  pub cbrt : F → F
  pub fabs : F → F
  pub power : F → F → F
  pub minus : F → F → F
  pub to_uint64 : F → ℕ

pub record CacheLatencyPoint {ℓ} (F : Type ℓ) : Type ℓ where
  pub working_set_bytes : ℕ
  pub latency_ns : F
  pub latency_cycles : F

pub record CacheLevelEstimate {ℓ} (F : Type ℓ) : Type ℓ where
  pub level : Bytes
  pub capacity_bytes : ℕ
  pub latency_ns : F
  pub latency_cycles : F
  pub jump_ratio : F
  pub rise_begin_bytes : ℕ
  pub rise_end_bytes : ℕ
  pub transition_width : F
  pub plateau_drift : F

pub record Plateau {ℓ} (F : Type ℓ) : Type ℓ where
  pub first : ℕ
  pub last : ℕ
  pub latency_ns : F
  pub latency_cycles : F

module _ {ℓ} {F : Type ℓ} (fl : Doubles F) where
  -- `std::min` and `std::max`.
  abbrev pub lesser : F → F → F
  lesser a b = if fl.less b a then b else a

  abbrev pub greater : F → F → F
  greater a b = if fl.less a b then b else a

  -- `std::sort` on doubles.
  unfoldable pub put_sorted : F → List F → List F
  put_sorted x [] = x ∷ []
  put_sorted x (y ∷ ys) = let rest = put_sorted x ys in if fl.less y x then y ∷ rest else x ∷ y ∷ ys

  unfoldable pub sorted : List F → List F
  unfolding put_sorted
  sorted [] = []
  sorted (x ∷ xs) = put_sorted x (sorted xs)

  unfoldable pub median_of : List F → Option F
  unfolding sorted
  median_of [] = some (fl.literal 0)
  median_of (x ∷ xs) =
      let values = sorted (x ∷ xs) in
      let middle = length values / 2 in
      if length values % 2 == 0
      then (do
        below ← get_elem? values (middle - 1)
        above ← get_elem? values middle
        some (fl.divide (fl.plus below above) (fl.literal 2)))
      else get_elem? values middle

  -- Whether every value is above 0.
  unfoldable pub all_positive : List F → Bool
  all_positive [] = true
  all_positive (x ∷ xs) = fl.less (fl.literal 0) x && all_positive xs

  -- plateau_median, on the values of the field at the points of the plateau.
  unfoldable pub plateau_median : List F → Option F
  unfolding median_of all_positive
  plateau_median values = if all_positive values then median_of values else some (fl.literal 0)

  unfoldable pub never_reached_memory : List (CacheLatencyPoint F) → F → Bool
  never_reached_memory [] memory_latency_ns = false
  never_reached_memory (point ∷ []) memory_latency_ns =
      if fl.less (fl.literal 0) memory_latency_ns
      then fl.less point.latency_ns (fl.times (fl.decimal 5 1) memory_latency_ns)
      else fl.less point.latency_ns (fl.decimal 400 1)
  never_reached_memory (point ∷ next ∷ points) memory_latency_ns =
      never_reached_memory (next ∷ points) memory_latency_ns

module _ {ℓ} {F : Type ℓ} (fl : Doubles F) (mf : Functions F) where
  -- The two tests of find_plateaus on neighbouring points: how far the plateau spans, from the lowest
  -- and the highest latency, and how fast the latency rises.
  unfoldable pub spans : F → F → Bool
  spans low high =
      not (at_most fl low (fl.literal 0) || fl.less (fl.literal 4) (fl.divide high low))

  unfoldable pub is_gentle : CacheLatencyPoint F → CacheLatencyPoint F → Bool
  is_gentle here next =
      let rise = mf.fabs (mf.log (fl.divide next.latency_ns here.latency_ns)) in
      let step =
        mf.log
          (fl.divide (fl.literal next.working_set_bytes) (fl.literal here.working_set_bytes)) in
      not (at_most fl step (fl.literal 0) || fl.less (fl.decimal 30 2) (fl.divide rise step))

  -- The inner loop, from the point where the plateau ends so far: how many points more belong to it,
  -- and the lowest latency.
  unfoldable pub extend : F → F → CacheLatencyPoint F → List (CacheLatencyPoint F) → ℕ × F
  unfolding spans is_gentle
  extend low high here [] = (0, low)
  extend low high here (next ∷ points) =
      let next_low = lesser fl low next.latency_ns in
      let next_high = greater fl high next.latency_ns in
      let more = extend next_low next_high next points in
      if spans next_low next_high && is_gentle here next then (suc more.0, more.1) else (0, low)

  unfoldable pub plateau_at : ℕ → ℕ → List (CacheLatencyPoint F) → Option (Plateau F)
  unfolding plateau_median
  plateau_at start more points = do
    latency_ns ← plateau_median fl (map (λ p. p.latency_ns) points)
    latency_cycles ← plateau_median fl (map (λ p. p.latency_cycles) points)
    some (record {
      first = start;
      last = start + more;
      latency_ns = latency_ns;
      latency_cycles = latency_cycles;
    })

  -- The outer loop, on fuel, whose end is `none` too, from what is left of the points behind `start` ones.
  unfoldable pub plateaus_from : ℕ → ℕ → List (CacheLatencyPoint F) → Option (List (Plateau F))
  unfolding extend plateau_at
  plateaus_from zero start [] = some []
  plateaus_from zero start (point ∷ points) = none
  plateaus_from (suc n) start [] = some []
  plateaus_from (suc n) start (point ∷ points) =
      let found = extend point.latency_ns point.latency_ns point points in
      if fl.less (fl.literal 0) found.1 && leb 3 (found.0 + 1)
      then (do
        plateau ← plateau_at start found.0 (point ∷ take found.0 points)
        rest ← plateaus_from n (start + found.0 + 1) (drop found.0 points)
        some (plateau ∷ rest))
      else plateaus_from n (start + 1) points

  unfoldable pub find_plateaus : List (CacheLatencyPoint F) → Option (List (Plateau F))
  unfolding plateaus_from
  find_plateaus points = plateaus_from (length points) 0 points
