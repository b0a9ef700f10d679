-- ===== src/Cache/Report/Reported.antt =====
-- common/cache/cache_report.cpp: the report that assign_curve makes of a curve.
use cpufb.Base.{
  ℕ, zero, suc, ◌+◌, ◌*◌, ◌/◌, ◌%◌, ◌^◌, ◌≡◌, refl, sym, ap, ◌∙◌, List, [], ◌∷◌, ◌++◌, map, Option,
  none, some, Bool, true, false, Bytes, codes, ltb, if◌then◌else◌, arith, get_elem?, drop, All,
  append_assoc, append-nil,
}
use cpufb.Text.Bytes.{is_empty}
use cpufb.Integers.{from_int, above_zero}
use cpufb.Doubles.{Doubles}
use cpufb.Cache.Curve.{Functions, CacheLatencyPoint, CacheLevelEstimate}
use cpufb.Cache.Curve.Estimate.{estimate_cache_levels}
use cpufb.Cache.Curve.Ordered.{Rising, level, estimate_cache_levels-Estimated}
use cpufb.Cache.Report.Doubt.{CacheCurveResult, describe_prefetch_doubt}
use cpufb.Cache.Report.{CacheData, concluded, assign_curve, cache_report_last_level_bytes}
use cpufb.Cache.Report.Assigned.{Gathered, gathered}
use cpufb.Cache.Report.Deeper.{listed}
use cpufb.Cache.Report.Names.{Whole, Named}
use cpufb.Cache.Report.Described.{
  size_of, deepest, between, last_of, noted, followed, commas, capacity_text, format-nonempty,
  stepped, bytes_of, is_empty-append,
}

module _ {ℓ} {F : Type ℓ} (fl : Doubles F) (doubt : Bytes) (mf : Functions F) where
  listed-followed :
      (steps : Bytes) (ls : List (CacheLevelEstimate F))
      → is_empty steps ≡ false
      → listed fl doubt mf steps (map capacity_text ls) ≡ steps ++ followed (map capacity_text ls)
  unfolding listed followed
  listed-followed steps [] h = sym (append-nil steps)
  listed-followed steps (l ∷ ls) h =
      let sep = codes ", " in
      let t = capacity_text l in
      let more = followed (map capacity_text ls) in
      rw (listed, h)
        (listed-followed (steps ++ sep ++ t) ls
            (is_empty-append (steps ++ sep) t (is_empty-append steps sep h))
          ∙ append_assoc (steps ++ sep) t more
          ∙ append_assoc steps sep (t ++ more)
          ∙ ap (steps ++◌) (sym (append_assoc sep t more)))

  listed-commas :
      (ls : List (CacheLevelEstimate F))
      → listed fl doubt mf [] (map capacity_text ls) ≡ commas (map capacity_text ls)
  unfolding listed is_empty capacity_text
  listed-commas [] = refl
  listed-commas (l ∷ ls) = listed-followed (capacity_text l) ls (format-nonempty l.capacity_bytes)

  is_empty-commas :
      (l : CacheLevelEstimate F) (ls : List (CacheLevelEstimate F))
      → is_empty (commas (map capacity_text (l ∷ ls))) ≡ false
  unfolding capacity_text
  is_empty-commas l ls = is_empty-append (capacity_text l) _ (format-nonempty l.capacity_bytes)

  concluded-note :
      (d : CacheData F) (ls : List (CacheLevelEstimate F))
      → (concluded (d, commas (map capacity_text ls))).test_L3_note
        ≡ stepped d.test_L3_note (map capacity_text ls)
  unfolding concluded is_empty
  concluded-note d [] = refl
  concluded-note d (l ∷ ls) = rw (is_empty-commas l ls) refl

Named-last {ℓ} :
    {F : Type ℓ} (count : ℕ) (l : CacheLevelEstimate F) (ls : List (CacheLevelEstimate F))
    → Whole l.capacity_bytes
    → Named count ls
    → Whole (last_of l ls).capacity_bytes
unfolding last_of
Named-last count l [] w named = w
Named-last count l (m ∷ ms) w (name, v, named) = Named-last (count + 1) m ms v named

All-get {ℓ} :
    {A : Type ℓ} (P : A → Type 0) (xs : List A) (i : ℕ) (x : A)
    → All P xs
    → get_elem? xs i ≡ some x
    → P x
All-get P [] i x h e = cc
All-get P (y ∷ xs) zero x h e = let same : y ≡ x = cc in rw (sym same) h.0
All-get P (y ∷ xs) (suc i) x h e = All-get P xs i x h.1 e

module _ {ℓ} {F : Type ℓ} (fl : Doubles F) (mf : Functions F) where
  Rising-Named :
      (points : List (CacheLatencyPoint F))
      → All (λ p. Whole p.working_set_bytes) points
      → (low count : ℕ) (ls : List (CacheLevelEstimate F)) → Rising fl mf points low count ls
      → Named count ls
  Rising-Named points whole low count [] r = tt
  Rising-Named points whole low count (l ∷ ls)
        (level plateau index point wide steady ns end le at c n more) =
      (
        n,
        rw c (All-get (λ p. Whole p.working_set_bytes) points index point whole at),
        Rising-Named points whole (index + 1) (count + 1) ls more,
      )

  -- The report of a curve: the sizes and the notes of its levels, where the third row is the deepest
  -- level, with the ones between named in its note; whether the curve is trusted; and the bytes of the
  -- deepest level if it is.
  pub record Reported (curve : CacheCurveResult F) (r : CacheData F) : Type ℓ where
    pub l1 : r.test_L1 ≡ size_of (get_elem? curve.levels 0)
    pub l2 : r.test_L2 ≡ size_of (get_elem? curve.levels 1)
    pub l3 : r.test_L3 ≡ size_of (deepest (drop 2 curve.levels))
    pub note1 :
        r.test_L1_note ≡ noted fl (describe_prefetch_doubt fl mf curve) (get_elem? curve.levels 0)
    pub note2 :
        r.test_L2_note ≡ noted fl (describe_prefetch_doubt fl mf curve) (get_elem? curve.levels 1)
    pub note3 :
        r.test_L3_note
        ≡ stepped
            (noted fl (describe_prefetch_doubt fl mf curve) (deepest (drop 2 curve.levels)))
            (map capacity_text (between (drop 2 curve.levels)))
    pub trusted : r.curve_trusted ≡ is_empty (describe_prefetch_doubt fl mf curve)
    pub complete : r.hierarchy_complete ≡ curve.reached_memory
    pub bytes : cache_report_last_level_bytes r ≡ (
        if is_empty (describe_prefetch_doubt fl mf curve)
        then bytes_of (deepest (drop 2 curve.levels))
        else 0)

  abbrev found_levels : Option (List (CacheLevelEstimate F) × Bool) → List (CacheLevelEstimate F)
  found_levels none = []
  found_levels (some found) = found.0

  same_levels :
      {levels others : List (CacheLevelEstimate F)} {reached reached' : Bool}
      {o : Option (List (CacheLevelEstimate F) × Bool)}
      → o ≡ some (levels, reached)
      → o ≡ some (others, reached')
      → others ≡ levels
  same_levels e f = sym (ap found_levels f) ∙ ap found_levels e

  last_level :
      (r : CacheData F) (trusts : Bool) (levels : List (CacheLevelEstimate F))
      → Named 0 levels
      → r.curve_trusted ≡ trusts
      → r.test_L3 ≡ size_of (deepest (drop 2 levels))
      → cache_report_last_level_bytes r ≡ (if trusts then bytes_of (deepest (drop 2 levels)) else 0)
  unfolding cache_report_last_level_bytes size_of deepest above_zero from_int bytes_of
  last_level r false levels named t e = rw t refl
  last_level r true [] named t e = rw (t, e) refl
  last_level r true (a ∷ []) named t e = rw (t, e) refl
  last_level r true (a ∷ b ∷ []) named t e = rw (t, e) refl
  last_level r true (a ∷ b ∷ c ∷ ls) (n, w, (m, v, (p, u, named))) t e =
      let (kib, k, above, below) = Named-last 3 c ls u named in
      let size : (last_of c ls).capacity_bytes / 1024 ≡ kib = omega (arith, k) in
      let there : ltb 0 kib ≡ true = ground (arith, above) in
      let whole : kib * 1024 % 2 ^ 64 ≡ kib * 1024 = omega (arith, below) in
      rw (t, e, size, there, whole, k) refl

  concluded-Reported :
      (report : CacheData F) (d : CacheData F) (text : Bytes)
      → Named 0 report.curve.levels
      → Gathered fl
          (describe_prefetch_doubt fl mf report.curve)
          mf
          report.curve.levels
          (is_empty (describe_prefetch_doubt fl mf report.curve))
          report
          (d, text)
      → Reported report.curve (concluded (d, text))
  unfolding concluded
  concluded-Reported report d text named g =
      let doubt = describe_prefetch_doubt fl mf report.curve in
      let ls = between (drop 2 report.curve.levels) in
      record {
        l1 = g.l1;
        l2 = g.l2;
        l3 = g.l3;
        note1 = g.note1;
        note2 = g.note2;
        note3 =
            ap (λ t. (concluded (d, t)).test_L3_note) (g.text ∙ listed-commas fl doubt mf ls)
            ∙ concluded-note fl doubt mf d ls
            ∙ ap (λ n. stepped n (map capacity_text ls)) g.note3;
        trusted = g.trusted;
        complete = ap (λ c. c.reached_memory) g.curve;
        bytes =
            last_level (concluded (d, text)) (is_empty doubt) report.curve.levels named g.trusted
              g.l3;
      }

  -- Where the working sets of the points are whole KiB that fit an `int`, and the levels of the curve and
  -- whether memory was reached are what estimate_cache_levels gives for the points: assign_curve puts the
  -- sizes of the first and the second level and of the deepest one behind these into the report, or 0
  -- where there is none, each with its note, and the note of the deepest level names the capacities
  -- between. The curve is trusted exactly if nothing is said against it. Of a trusted curve,
  -- cache_report_last_level_bytes gives the bytes of this deepest level, and 0 otherwise.
  pub assign_curve-Reported :
      (report : CacheData F)
      → All (λ p. Whole p.working_set_bytes) report.curve.points
      → estimate_cache_levels fl mf report.curve.points report.curve.memory_latency_ns
        ≡ some (report.curve.levels, report.curve.reached_memory)
      → Reported report.curve (assign_curve fl mf report)
  unfolding assign_curve
  assign_curve-Reported report whole e =
      let estimated =
        estimate_cache_levels-Estimated fl mf report.curve.points report.curve.memory_latency_ns in
      let named : Named 0 report.curve.levels =
        rw (same_levels (estimated.found) e)
          (Rising-Named report.curve.points whole 0 0 estimated.levels estimated.rising) in
      let doubt = describe_prefetch_doubt fl mf report.curve in
      let g = gathered fl doubt mf report.curve.levels (is_empty doubt) report named in
      concluded-Reported report _ _ named g
