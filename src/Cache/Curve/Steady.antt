-- ===== src/Cache/Curve/Steady.antt =====
-- common/cache/cache_curve.cpp: what find_plateaus gives.
use cpufb.Base.{
  ℕ, zero, suc, ◌+◌, ◌-◌, ◌≡◌, ◌≤◌, ◌<◌, inl, inr, refl, sym, ap, ◌∙◌, List, [], ◌∷◌, map, Option,
  some, Bool, true, false, ◌&&◌, ◌||◌, not, leb, arith, length, get_elem?, take, drop, All,
  Bool-cases,
}
use cpufb.Doubles.{Doubles, at_most}
use cpufb.Cache.Curve.Median.{IsMedian, plateau_median-IsMedian}
use cpufb.Cache.Curve.{
  Functions, CacheLatencyPoint, Plateau, lesser, greater, spans, is_gentle, extend, plateau_at,
  plateaus_from, find_plateaus,
}

get_elem?-drop {ℓ} :
    {A : Type ℓ} (n : ℕ) (xs : List A) (i : ℕ) → get_elem? xs (n + i) ≡ get_elem? (drop n xs) i
get_elem?-drop zero xs i = ap (get_elem? xs) {x = 0 + i} {y = i} (omega arith)
get_elem?-drop (suc n) [] i = refl
get_elem?-drop (suc n) (x ∷ xs) i =
    ap (get_elem? (x ∷ xs)) {x = suc n + i} {y = suc (n + i)} (omega arith) ∙ get_elem?-drop n xs i

length-drop {ℓ} : {A : Type ℓ} (n : ℕ) (xs : List A) → length (drop n xs) ≡ length xs - n
length-drop zero xs = omega arith
length-drop (suc n) [] = omega arith
length-drop (suc n) (x ∷ xs) = omega (arith, length-drop n xs)

pub length-map {ℓ κ} :
    {A : Type ℓ} {B : Type κ} (f : A → B) (xs : List A) → length (map f xs) ≡ length xs
length-map f [] = refl
length-map f (x ∷ xs) = ap suc (length-map f xs)

get_elem?-take {ℓ} :
    {A : Type ℓ} (n : ℕ) (xs : List A) (i : ℕ) → i < n → get_elem? xs i ≡ get_elem? (take n xs) i
get_elem?-take zero xs i h = absurd (omega (arith, h))
get_elem?-take (suc n) [] i h = refl
get_elem?-take (suc n) (x ∷ xs) zero h = refl
get_elem?-take (suc n) (x ∷ xs) (suc i) h = get_elem?-take n xs i (omega (arith, h))

length-take {ℓ} : {A : Type ℓ} (n : ℕ) (xs : List A) → n ≤ length xs → length (take n xs) ≡ n
length-take zero xs h = refl
length-take (suc n) [] h = absurd (omega (arith, h))
length-take (suc n) (x ∷ xs) h = ap suc (length-take n xs (omega (arith, h)))

-- Plateaus within `size` points: in their order, without overlap, and of at least three points each.
abbrev pub Placed {ℓ} : {F : Type ℓ} → ℕ → ℕ → List (Plateau F) → Type 0
Placed low size [] = Unit
Placed low size (p ∷ ps) =
    (low ≤ p.first) × (p.first + 2 ≤ p.last) × (p.last < size) × Placed (p.last + 1) size ps

at_least_three : (more : ℕ) → leb 3 (more + 1) ≡ true → (start : ℕ) → start + 2 ≤ start + more
at_least_three more e start = ground (arith, e)

and_right : (a b : Bool) → (a && b) ≡ true → b ≡ true
and_right true b e = e
and_right false b e = absurd cc

neither : (a b : Bool) → not (a || b) ≡ true → (a ≡ false) × (b ≡ false)
neither false false e = (refl, refl)
neither false true e = absurd cc
neither true b e = absurd cc

Placed-lower {ℓ} :
    {F : Type ℓ} (low high size : ℕ) (ps : List (Plateau F))
    → low ≤ high
    → Placed high size ps
    → Placed low size ps
Placed-lower low high size [] h v = tt
Placed-lower low high size (p ∷ ps) h v = (omega (arith, h, v.0), v.1, v.2, v.3)

module _ {ℓ} {F : Type ℓ} (fl : Doubles F) (mf : Functions F) where
  -- The latency changes gently from a point to the next one.
  abbrev GentleAt : List (CacheLatencyPoint F) → ℕ → Type ℓ
  GentleAt points i =
      (a b : CacheLatencyPoint F)
      → get_elem? points i ≡ some a
      → get_elem? points (suc i) ≡ some b
      → is_gentle fl mf a b ≡ true

  -- From one point to the next the working set grows, and the latency, on the scale of the logarithms,
  -- changes by at most 0.30 of that.
  pub record Gentle (here next : CacheLatencyPoint F) : Type 0 where
    pub grows :
        at_most fl
          (mf.log
            (fl.divide (fl.literal next.working_set_bytes) (fl.literal here.working_set_bytes)))
          (fl.literal 0)
        ≡ false
    pub slope :
        fl.less (fl.decimal 30 2) (
          fl.divide (mf.fabs (mf.log (fl.divide next.latency_ns here.latency_ns))) (
            mf.log
              (fl.divide (fl.literal next.working_set_bytes) (fl.literal here.working_set_bytes))))
        ≡ false

  is_gentle-Gentle :
      (here next : CacheLatencyPoint F) → is_gentle fl mf here next ≡ true → Gentle here next
  unfolding is_gentle
  is_gentle-Gentle here next e = let (g, s) = neither _ _ e in record { grows = g; slope = s }

  -- From point to point of a plateau the latency changes gently, and its latencies are the medians of
  -- those of its points.
  pub record Steady (points : List (CacheLatencyPoint F)) (p : Plateau F) : Type ℓ where
    pub gentle :
        (i : ℕ)
        → p.first ≤ i
        → i < p.last
        → (a b : CacheLatencyPoint F) → get_elem? points i ≡ some a
        → get_elem? points (suc i) ≡ some b
        → Gentle a b
    pub members : List (CacheLatencyPoint F)
    pub size : p.first + length members ≡ suc p.last
    pub same : (i : ℕ) → i < length members → get_elem? points (p.first + i) ≡ get_elem? members i
    pub ns : IsMedian fl (map (λ m. m.latency_ns) members) p.latency_ns
    pub cycles : IsMedian fl (map (λ m. m.latency_cycles) members) p.latency_cycles

  gentle-cons :
      (here next : CacheLatencyPoint F) (rest : List (CacheLatencyPoint F)) (more : ℕ)
      → is_gentle fl mf here next ≡ true
      → ((i : ℕ) → i < more → GentleAt (next ∷ rest) i)
      → (i : ℕ) → i < suc more
      → GentleAt (here ∷ next ∷ rest) i
  gentle-cons here next rest more first gentle zero h a b ea eb = cc (ea, eb, first)
  gentle-cons here next rest more first gentle (suc i) h a b ea eb =
      gentle i (omega (arith, h)) a b ea eb

  extend-gentle :
      (low high : F) (here : CacheLatencyPoint F) (rest : List (CacheLatencyPoint F))
      → let more = (extend fl mf low high here rest).0 in
        (more ≤ length rest) × ((i : ℕ) → i < more → GentleAt (here ∷ rest) i)
  unfolding extend
  extend-gentle low high here [] = (omega arith, λ i h. absurd (omega (arith, h)))
  extend-gentle low high here (next ∷ rest) =
      let next_low = lesser fl low next.latency_ns in
      let next_high = greater fl high next.latency_ns in
      let (le, gentle) = extend-gentle next_low next_high next rest in
      elim (Bool-cases (spans fl mf next_low next_high && is_gentle fl mf here next)) [
        | inl e ↦ rw e (
          omega (arith, le),
          gentle-cons here next rest _ (and_right (spans fl mf next_low next_high) _ e) gentle,
        )
        | inr e ↦ rw e (omega arith, λ i h. absurd (omega (arith, h)))
      ]

  plateau_at-some :
      (start more : ℕ) (point : CacheLatencyPoint F) (points : List (CacheLatencyPoint F))
      → (ns cycles : F) × (plateau_at fl mf start more (point ∷ points)
          ≡ some (record {
            first = start;
            last = start + more;
            latency_ns = ns;
            latency_cycles = cycles;
          }))
        × IsMedian fl (map (λ m. m.latency_ns) (point ∷ points)) ns
        × IsMedian fl (map (λ m. m.latency_cycles) (point ∷ points)) cycles
  unfolding plateau_at
  plateau_at-some start more point points =
      let (ns, n, v) =
        plateau_median-IsMedian fl point.latency_ns (map (λ p. p.latency_ns) points) in
      let (cycles, c, w) =
        plateau_median-IsMedian fl point.latency_cycles (map (λ p. p.latency_cycles) points) in
      (ns, cycles, rw (n, c) refl, v, w)

  -- What the loop gives from `points` on, which stand in `whole` behind `start` others.
  pub record Found (whole : List (CacheLatencyPoint F)) (start : ℕ) (o : Option (List (Plateau F)))
      : Type ℓ where
    pub plateaus : List (Plateau F)
    pub found : o ≡ some plateaus
    pub placed : Placed start (length whole) plateaus
    pub steady : All (Steady whole) plateaus

  steady-at :
      (whole points : List (CacheLatencyPoint F)) (start more : ℕ)
      → ((i : ℕ) → get_elem? whole (start + i) ≡ get_elem? points i)
      → ((i : ℕ) → i < more → GentleAt points i)
      → (i : ℕ) → start ≤ i
      → i < start + more
      → GentleAt whole i
  steady-at whole points start more same gentle i h k a b ea eb =
      let at : start + (i - start) ≡ i = omega (arith, h) in
      let next : start + suc (i - start) ≡ suc i = omega (arith, h) in
      gentle (i - start) (omega (arith, h, k)) a b
        (sym (same (i - start)) ∙ ap (get_elem? whole) at ∙ ea)
        (sym (same (suc (i - start))) ∙ ap (get_elem? whole) next ∙ eb)

  plateaus_from-Found :
      (n start : ℕ) (whole points : List (CacheLatencyPoint F))
      → ((i : ℕ) → get_elem? whole (start + i) ≡ get_elem? points i)
      → length points ≤ n
      → start + length points ≡ length whole
      → Found whole start (plateaus_from fl mf n start points)
  unfolding plateaus_from
  plateaus_from-Found zero start whole [] same le size = record {
    plateaus = [];
    found = refl;
    placed = tt;
    steady = tt;
  }
  plateaus_from-Found zero start whole (point ∷ points) same le size = absurd (omega (arith, le))
  plateaus_from-Found (suc n) start whole [] same le size = record {
    plateaus = [];
    found = refl;
    placed = tt;
    steady = tt;
  }
  plateaus_from-Found (suc n) start whole (point ∷ points) same le size =
      let found = extend fl mf point.latency_ns point.latency_ns point points in
      let (few, gentle) = extend-gentle point.latency_ns point.latency_ns point points in
      let (ns, cycles, p, median, median_cycles) =
        plateau_at-some start found.0 point (take found.0 points) in
      let behind =
        plateaus_from-Found n (start + found.0 + 1) whole (drop found.0 points)
          (λ i.
            ap (get_elem? whole) {x = start + found.0 + 1 + i} {y = start + suc (found.0 + i)}
              (omega arith)
            ∙ same (suc (found.0 + i))
            ∙ get_elem?-drop found.0 points i)
          (omega (arith, le, length-drop found.0 points))
          (omega (arith, size, few, length-drop found.0 points)) in
      let next =
        plateaus_from-Found n (start + 1) whole points
          (λ i.
            ap (get_elem? whole) {x = start + 1 + i} {y = start + suc i} (omega arith)
            ∙ same (suc i))
          (omega (arith, le)) (omega (arith, size)) in
      elim (Bool-cases (fl.less (fl.literal 0) found.1 && leb 3 (found.0 + 1))) [
        | inl e ↦ record {
          plateaus =
              (record {
                first = start;
                last = start + found.0;
                latency_ns = ns;
                latency_cycles = cycles;
              })
              ∷ behind.plateaus;
          found = rw (e, p, behind.found) refl;
          placed = (
            omega arith,
            at_least_three found.0 (and_right (fl.less (fl.literal 0) found.1) _ e) start,
            omega (arith, size, few),
            behind.placed,
          );
          steady = (
            record {
              gentle = λ i h k a b ea eb.
                  is_gentle-Gentle a b
                    (steady-at whole (point ∷ points) start found.0 same gentle i h k a b ea eb);
              members = point ∷ take found.0 points;
              size = omega (arith, length-take found.0 points few);
              same = λ i h.
                  same i
                  ∙ get_elem?-take (suc found.0) (point ∷ points) i
                      (omega (arith, length-take found.0 points few, h));
              ns = median;
              cycles = median_cycles;
            },
            behind.steady,
          );
        }
        | inr e ↦ record {
          plateaus = next.plateaus;
          found = rw e next.found;
          placed =
              Placed-lower start (start + 1) (length whole) next.plateaus (omega arith) next.placed;
          steady = next.steady;
        }
      ]

  pub find_plateaus-Found :
      (points : List (CacheLatencyPoint F)) → Found points 0 (find_plateaus fl mf points)
  unfolding find_plateaus
  find_plateaus-Found points =
      plateaus_from-Found (length points) 0 points points
        (λ i. ap (get_elem? points) {x = 0 + i} {y = i} (omega arith)) (omega arith) (omega arith)
