-- ===== src/Cache/Sweep/Swept.antt =====
-- common/cache/cache_curve.cpp: the working sets of the points that are measured and measured again.
use cpufb.Base.{
  ℕ, suc, ◌+◌, ◌-◌, ◌≡◌, refl, ap, ◌∙◌, List, [], ◌∷◌, map, some, Bool, true, false, ◌==◌, arith,
  length, replicate, length-replicate, Bool-cases, inl, inr,
}
use cpufb.Doubles.{Doubles}
use cpufb.Cache.Curve.{Functions, CacheLatencyPoint, CacheLevelEstimate}
use cpufb.Cache.Curve.Median.{get_elem?-some}
use cpufb.Cache.Report.Doubt.{RemeasuredPoint}
use cpufb.Cache.Sweep.{
  ChaseSample, mark, mark_level, mark_levels, drops, mark_falls, put_by_time, middle_of, sweep,
  remeasure, remeasure_from, decisive_samples, seed_for,
}

-- The working sets of points.
abbrev pub worksets {ℓ} : {F : Type ℓ} → List (CacheLatencyPoint F) → List ℕ
worksets points = map (λ p. p.working_set_bytes) points

length-mark : (low high i : ℕ) (flags : List Bool) → length (mark low high i flags) ≡ length flags
unfolding mark
length-mark low high i [] = refl
length-mark low high i (f ∷ flags) = ap suc (length-mark low high (suc i) flags)

module _ {ℓ} {F : Type ℓ} where
  length-mark_level :
      (capacity i : ℕ) (points : List (CacheLatencyPoint F)) (flags : List Bool)
      → length (mark_level capacity i points flags) ≡ length flags
  unfolding mark_level
  length-mark_level capacity i [] flags = refl
  length-mark_level capacity i (p ∷ points) flags =
      elim (Bool-cases (p.working_set_bytes == capacity)) [
        | inl e ↦ rw e (
            length-mark_level capacity (suc i) points (mark (i - 1) (i + 2) 0 flags)
            ∙ length-mark (i - 1) (i + 2) 0 flags)
        | inr e ↦ rw e (length-mark_level capacity (suc i) points flags)
      ]

  length-mark_levels :
      (levels : List (CacheLevelEstimate F)) (points : List (CacheLatencyPoint F))
      (flags : List Bool)
      → length (mark_levels levels points flags) ≡ length flags
  unfolding mark_levels
  length-mark_levels [] points flags = refl
  length-mark_levels (l ∷ levels) points flags =
      length-mark_levels levels points (mark_level l.capacity_bytes 0 points flags)
      ∙ length-mark_level l.capacity_bytes 0 points flags

module _ {ℓ} {F : Type ℓ} (fl : Doubles F) (mf : Functions F) where
  length-mark_falls :
      (floor_ns : F) (i : ℕ) (points : List (CacheLatencyPoint F)) (flags : List Bool)
      → length (mark_falls fl mf floor_ns i points flags) ≡ length flags
  unfolding mark_falls
  length-mark_falls floor_ns i [] flags = refl
  length-mark_falls floor_ns i (p ∷ []) flags = refl
  length-mark_falls floor_ns i (p ∷ q ∷ points) flags =
      elim (Bool-cases (drops fl mf floor_ns p.latency_ns q.latency_ns)) [
        | inl e ↦
            rw (mark_falls, e)
              (length-mark_falls floor_ns (suc i) (q ∷ points) (mark (i - 1) i 0 flags)
                ∙ length-mark (i - 1) i 0 flags)
        | inr e ↦ rw (mark_falls, e) (length-mark_falls floor_ns (suc i) (q ∷ points) flags)
      ]

  pub length-decisive_samples :
      (memory_latency_ns : F) (levels : List (CacheLevelEstimate F))
      (points : List (CacheLatencyPoint F)) (count : ℕ)
      → length (decisive_samples fl mf memory_latency_ns levels points count) ≡ count
  unfolding decisive_samples
  length-decisive_samples memory_latency_ns levels points count =
      length-mark_falls _ 1 points (mark_levels levels points (replicate count false))
      ∙ length-mark_levels levels points (replicate count false)
      ∙ length-replicate count false

  length-put_by_time :
      (x : ChaseSample F) (ys : List (ChaseSample F))
      → length (put_by_time fl mf x ys) ≡ suc (length ys)
  unfolding put_by_time
  length-put_by_time x [] = refl
  length-put_by_time x (y ∷ ys) = elim (Bool-cases (fl.less y.ns x.ns)) [
    | inl e ↦ rw e (ap suc (length-put_by_time x ys))
    | inr e ↦ rw e refl
  ]

  middle_of-some :
      (a b c : ChaseSample F) → (middle : ChaseSample F) × (middle_of fl mf a b c ≡ some middle)
  unfolding middle_of
  middle_of-some a b c =
      let two = put_by_time fl mf b (put_by_time fl mf c []) in
      let three : length (put_by_time fl mf a two) ≡ 3 =
        length-put_by_time a two
        ∙ ap suc
            (length-put_by_time b (put_by_time fl mf c []) ∙ ap suc (length-put_by_time c [])) in
      get_elem?-some (put_by_time fl mf a two) 1 (omega (arith, three))

  module _ (measure : ℕ → ℕ → ℕ → ChaseSample F) (groups : ℕ) where
    pub worksets-sweep :
        (i : ℕ) (sizes : List ℕ) → worksets (sweep fl mf measure groups i sizes) ≡ sizes
    unfolding sweep
    worksets-sweep i [] = refl
    worksets-sweep i (size ∷ sizes) = ap (size ∷◌) (worksets-sweep (suc i) sizes)

    remeasure-some :
        (i size : ℕ) (p : CacheLatencyPoint F)
        → (found : CacheLatencyPoint F × RemeasuredPoint F) × (remeasure fl mf measure groups i size
              p
            ≡ some found)
          × (found.0.working_set_bytes ≡ p.working_set_bytes)
    unfolding remeasure
    remeasure-some i size p =
        let first : ChaseSample F = record { ns = p.latency_ns; cycles = p.latency_cycles } in
        let second = measure size groups (seed_for i 1) in
        let third = measure size groups (seed_for i 2) in
        let (middle, m) = middle_of-some first second third in
        (
          (
            record p { latency_ns = middle.ns; latency_cycles = middle.cycles },
            record {
              working_set_bytes = size;
              samples_ns = (first.ns, second.ns, third.ns);
              samples_cycles = (first.cycles, second.cycles, third.cycles);
            },
          ),
          rw m refl,
          refl,
        )

    -- The points of the second round, with the working sets of the first.
    pub remeasure_from-some :
        (i : ℕ) (sizes : List ℕ) (flags : List Bool) (points : List (CacheLatencyPoint F))
        → length sizes ≡ length points
        → length flags ≡ length points
        → (found : List (CacheLatencyPoint F) × List (RemeasuredPoint F)) × (remeasure_from fl mf
              measure groups i sizes flags points
            ≡ some found)
          × (worksets found.0 ≡ worksets points)
    unfolding remeasure_from
    remeasure_from-some i sizes flags [] h k = (([], []), refl, refl)
    remeasure_from-some i [] flags (p ∷ points) h k = absurd (omega (arith, h))
    remeasure_from-some i (s ∷ sizes) [] (p ∷ points) h k = absurd (omega (arith, k))
    remeasure_from-some i (s ∷ sizes) (true ∷ flags) (p ∷ points) h k =
        let (later, e, same) =
          remeasure_from-some (suc i) sizes flags points (omega (arith, h)) (omega (arith, k)) in
        let (again, m, kept) = remeasure-some i s p in
        ((again.0 ∷ later.0, again.1 ∷ later.1), rw (e, m) refl, rw (kept, same) refl)
    remeasure_from-some i (s ∷ sizes) (false ∷ flags) (p ∷ points) h k =
        let (later, e, same) =
          remeasure_from-some (suc i) sizes flags points (omega (arith, h)) (omega (arith, k)) in
        ((p ∷ later.0, later.1), rw e refl, ap (p.working_set_bytes ∷◌) same)
