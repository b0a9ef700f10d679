-- ===== src/Cache/Curve/Ordered.antt =====
-- common/cache/cache_curve.cpp: what estimate_cache_levels gives.
use cpufb.Base.{
  ℕ, zero, suc, ◌+◌, ◌-◌, ◌≡◌, ◌≤◌, ◌<◌, ◌⊎◌, inl, inr, refl, List, [], ◌∷◌, ◌++◌, Option, some,
  Bool, false, ◌||◌, codes, ◌==◌, if◌then◌else◌, arith, length, get_elem?, All, Bool-cases,
}
use cpufb.Doubles.{Doubles, at_most}
use cpufb.Text.Decimal.{to_string}
use cpufb.Cache.Curve.{Functions, CacheLatencyPoint, CacheLevelEstimate, Plateau}
use cpufb.Cache.Curve.Estimate.{
  interpolated, crossing_from, crossing_bytes, transition_width, capacity_index, is_memory,
  is_drift, level_at, levels_from, estimate_cache_levels,
}
use cpufb.Cache.Curve.Steady.{Placed, Steady, find_plateaus-Found}
use cpufb.Cache.Curve.Median.{get_elem?-some}

-- Levels behind `count` others. Each has the latencies of a steady plateau of at least three points,
-- and as its capacity the working set of a point at the end of this plateau or behind it; these points
-- come one after the other, from the point `low` on; the names of the levels count on.
pub data Rising {ℓ} {F : Type ℓ} (fl : Doubles F) (mf : Functions F)
    (points : List (CacheLatencyPoint F)) : ℕ → ℕ → List (CacheLevelEstimate F) → Type ℓ where
  no_more : {low count : ℕ} → Rising fl mf points low count []
  level :
      {low count : ℕ} {l : CacheLevelEstimate F} {ls : List (CacheLevelEstimate F)}
      (plateau : Plateau F) (index : ℕ) (point : CacheLatencyPoint F)
      → plateau.first + 2 ≤ plateau.last
      → Steady fl mf points plateau
      → (l.latency_ns ≡ plateau.latency_ns) × (l.latency_cycles ≡ plateau.latency_cycles)
      → plateau.last ≤ index
      → low ≤ index
      → get_elem? points index ≡ some point
      → l.capacity_bytes ≡ point.working_set_bytes
      → l.level ≡ codes "L" ++ to_string (count + 1)
      → Rising fl mf points (index + 1) (count + 1) ls
      → Rising fl mf points low count (l ∷ ls)

Rising-lower {ℓ} :
    {F : Type ℓ} (fl : Doubles F) (mf : Functions F) (points : List (CacheLatencyPoint F))
    (low high count : ℕ) (ls : List (CacheLevelEstimate F))
    → low ≤ high
    → Rising fl mf points high count ls
    → Rising fl mf points low count ls
Rising-lower fl mf points low high count ls h no_more = no_more
Rising-lower fl mf points low high count ls h
      (level plateau index point wide steady ns end le at c n more) =
    level plateau index point wide steady ns end (omega (arith, h, le)) at c n more

module _ {ℓ} {F : Type ℓ} (fl : Doubles F) (mf : Functions F)
    (points : List (CacheLatencyPoint F)) where
  crossing_from-some :
      (first : ℕ) (target : F) (rounds j : ℕ)
      → j + rounds ≤ length points
      → (bytes : ℕ) × (crossing_from fl mf points first target rounds j ≡ some bytes)
  unfolding crossing_from
  crossing_from-some first target zero j h = (0, refl)
  crossing_from-some first target (suc rounds) j h =
      let (point, p) = get_elem?-some points j (omega (arith, h)) in
      let (below, b) = get_elem?-some points (j - 1) (omega (arith, h)) in
      let (later, l) = crossing_from-some first target rounds (suc j) (omega (arith, h)) in
      elim (Bool-cases (fl.less point.latency_ns target)) [
        | inl e ↦ (later, rw (p, e) l)
        | inr e ↦ elim (Bool-cases (j == first)) [
          | inl f ↦ (point.working_set_bytes, rw (p, e, f) refl)
          | inr f ↦
              elim (Bool-cases (
                at_most fl target below.latency_ns || at_most fl below.latency_ns (fl.literal 0))) [
                  | inl g ↦ (point.working_set_bytes, rw (p, e, f, b, g) refl)
                  | inr g ↦ (interpolated fl mf below point target, rw (p, e, f, b, g) refl)
                ]
        ]
      ]

  capacity_index-within :
      (threshold : F) (rounds j index : ℕ)
      → j + rounds ≤ length points
      → (found : ℕ) × (capacity_index fl mf points threshold rounds j index ≡ some found)
        × ((found ≡ index) ⊎ ((j ≤ found) × (found < j + rounds)))
  unfolding capacity_index
  capacity_index-within threshold zero j index h = (index, refl, inl refl)
  capacity_index-within threshold (suc rounds) j index h =
      let (point, p) = get_elem?-some points j (omega (arith, h)) in
      let (found, f, within) =
        capacity_index-within threshold rounds (suc j) j (omega (arith, h)) in
      elim (Bool-cases (fl.less point.latency_ns threshold)) [
        | inl e ↦ (
          found,
          rw (p, e) f,
          inr (elim within [
            | inl a ↦ (omega (arith, a), omega (arith, a))
            | inr a ↦ (omega (arith, a.0), omega (arith, a.1))
          ]),
        )
        | inr e ↦ (index, rw (p, e) refl, inl refl)
      ]

  transition_width-some :
      (below above : Plateau F)
      → below.first ≤ above.last
      → above.last < length points
      → (found : F × ℕ × ℕ) × (transition_width fl mf points below above ≡ some found)
  unfolding transition_width crossing_bytes
  transition_width-some below above h k =
      let log_low = mf.log below.latency_ns in
      let climb = mf.minus (mf.log above.latency_ns) log_low in
      let rounds = above.last + 1 - below.first in
      let (begin, b) =
        crossing_from-some below.first (mf.exp (fl.plus log_low (fl.times (fl.decimal 1 1) climb)))
          rounds below.first (omega (arith, h, k)) in
      let (end, e) =
        crossing_from-some below.first (mf.exp (fl.plus log_low (fl.times (fl.decimal 9 1) climb)))
          rounds below.first (omega (arith, h, k)) in
      (
        (
          if begin == 0 || end == 0
              then fl.literal 1
              else fl.divide (fl.literal end) (fl.literal begin),
          begin,
          end,
        ),
        rw (b, e) refl,
      )

  -- A level between two plateaus.
  record Resolved (count : ℕ) (below above : Plateau F) : Type ℓ where
    estimate : CacheLevelEstimate F
    there : level_at fl mf points count below above ≡ some estimate
    index : ℕ
    point : CacheLatencyPoint F
    after : below.last ≤ index
    before : index < above.first
    at : get_elem? points index ≡ some point
    latency :
        (estimate.latency_ns ≡ below.latency_ns) × (estimate.latency_cycles ≡ below.latency_cycles)
    capacity : estimate.capacity_bytes ≡ point.working_set_bytes
    named : estimate.level ≡ codes "L" ++ to_string (count + 1)

  level_at-Resolved :
      (count : ℕ) (below above : Plateau F)
      → below.first ≤ below.last
      → below.last < above.first
      → above.first ≤ above.last
      → above.last < length points
      → Resolved count below above
  unfolding level_at
  level_at-Resolved count below above h k m n =
      let threshold =
        mf.cbrt (fl.times (fl.times below.latency_ns below.latency_ns) above.latency_ns) in
      let (index, i, within) =
        capacity_index-within threshold (above.first - below.last) below.last below.last
          (omega (arith, k, m, n)) in
      let range : (below.last ≤ index) × (index < above.first) = elim within [
        | inl a ↦ (omega (arith, a), omega (arith, a, k))
        | inr a ↦ (a.0, omega (arith, a.1, k))
      ] in
      let (first, f) = get_elem?-some points below.first (omega (arith, h, k, m, n)) in
      let (last, l) = get_elem?-some points below.last (omega (arith, k, m, n)) in
      let (point, p) = get_elem?-some points index (omega (arith, range.1, m, n)) in
      let ((width, begin, end), t) = transition_width-some below above (omega (arith, h, k, m)) n in
      record {
        estimate = record {
          level = codes "L" ++ to_string (count + 1);
          capacity_bytes = point.working_set_bytes;
          latency_ns = below.latency_ns;
          latency_cycles = below.latency_cycles;
          jump_ratio = fl.divide above.latency_ns below.latency_ns;
          rise_begin_bytes = begin;
          rise_end_bytes = end;
          transition_width = width;
          plateau_drift =
              if fl.less (fl.literal 0) first.latency_ns
              then fl.divide last.latency_ns first.latency_ns
              else fl.literal 1;
        };
        there = rw (i, f, l, p, t) refl;
        index = index;
        point = point;
        after = range.0;
        before = range.1;
        at = p;
        latency = (refl, refl);
        capacity = refl;
        named = refl;
      }

  -- The levels that are found from the point `low` on, behind `count` others.
  pub record Estimated (low count : ℕ) (o : Option (List (CacheLevelEstimate F) × Bool))
      : Type ℓ where
    pub levels : List (CacheLevelEstimate F)
    pub reached_memory : Bool
    pub found : o ≡ some (levels, reached_memory)
    pub rising : Rising fl mf points low count levels

  levels_from-Estimated :
      (memory : F) (count low : ℕ) (p : Plateau F) (ps : List (Plateau F))
      → Placed low (length points) (p ∷ ps)
      → All (Steady fl mf points) (p ∷ ps)
      → Estimated p.last count (levels_from fl mf points memory count (p ∷ ps))
  unfolding levels_from
  levels_from-Estimated memory count low p [] v steady = record {
    levels = [];
    reached_memory = false;
    found = refl;
    rising = no_more;
  }
  levels_from-Estimated memory count low p (q ∷ ps) (a, b, c, rest) steady =
      let same = levels_from-Estimated memory count (p.last + 1) q ps rest steady.1 in
      let more = levels_from-Estimated memory (count + 1) (p.last + 1) q ps rest steady.1 in
      let v =
        level_at-Resolved count p q (omega (arith, b)) (omega (arith, rest.0))
          (omega (arith, rest.1)) rest.2 in
      elim (Bool-cases (is_memory fl mf memory p)) [
        | inl m ↦ record {
          levels = [];
          reached_memory = false;
          found = rw m refl;
          rising = no_more;
        }
        | inr m ↦ elim (Bool-cases (is_drift fl mf p q)) [
          | inl d ↦ record {
            levels = same.levels;
            reached_memory = same.reached_memory;
            found = rw (m, d) same.found;
            rising =
                Rising-lower fl mf points p.last q.last count same.levels
                  (omega (arith, rest.0, rest.1)) same.rising;
          }
          | inr d ↦ record {
            levels = v.estimate ∷ more.levels;
            reached_memory = is_memory fl mf memory q || more.reached_memory;
            found = rw (m, d, v.there, more.found) refl;
            rising =
                level p v.index v.point b steady.0 v.latency v.after v.after v.at v.capacity v.named
                  (Rising-lower fl mf points (v.index + 1) q.last (count + 1) more.levels
                    (omega (arith, v.before, rest.1)) more.rising);
          }
        ]
      ]

  plateaus-Estimated :
      (memory : F) (ps : List (Plateau F))
      → Placed 0 (length points) ps
      → All (Steady fl mf points) ps
      → Estimated 0 0 (levels_from fl mf points memory 0 ps)
  unfolding levels_from
  plateaus-Estimated memory [] v steady = record {
    levels = [];
    reached_memory = false;
    found = refl;
    rising = no_more;
  }
  plateaus-Estimated memory (p ∷ ps) v steady =
      let e = levels_from-Estimated memory 0 0 p ps v steady in
      record {
        levels = e.levels;
        reached_memory = e.reached_memory;
        found = e.found;
        rising = Rising-lower fl mf points 0 p.last 0 e.levels (omega arith) e.rising;
      }

  -- For any points and any memory latency, estimate_cache_levels gives levels without a read out of
  -- bounds. They are named L1, L2 and so on. Each has the latencies, in nanoseconds and in cycles, of a
  -- plateau of at least three points, between neighbours of which the working set grows and the latency
  -- changes by at most 0.30 of that, both as logarithms of ratios. Each of the two latencies is the
  -- median of those of the points, or 0 where one of these is not above 0. The capacity of a level is
  -- the working set of a point at the end of its plateau or behind it, and these points come later from
  -- level to level.
  pub estimate_cache_levels-Estimated :
      (memory_latency_ns : F) → Estimated 0 0 (estimate_cache_levels fl mf points memory_latency_ns)
  unfolding estimate_cache_levels
  estimate_cache_levels-Estimated memory_latency_ns =
      let f = find_plateaus-Found fl mf points in
      rw f.found (plateaus-Estimated memory_latency_ns f.plateaus f.placed f.steady)
