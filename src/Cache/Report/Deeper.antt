-- ===== src/Cache/Report/Deeper.antt =====
-- common/cache/cache_report.cpp: the loop of assign_curve from the third level on.
use cpufb.Base.{
  ℕ, ◌+◌, ◌*◌, ◌/◌, ◌^◌, ◌≡◌, ◌%◌, refl, ap, ◌∙◌, List, [], ◌∷◌, ◌++◌, map, true, Bytes, codes, ltb,
  if◌then◌else◌, arith,
}
use cpufb.Text.Bytes.{is_empty}
use cpufb.Text.Decimal.{to_string}
use cpufb.Integers.{pos, from_int, above_zero, to_int-small}
use cpufb.Doubles.{Doubles}
use cpufb.Cache.Curve.{Functions, CacheLevelEstimate}
use cpufb.Cache.Report.{CacheData, assign_level, assign_levels}
use cpufb.Cache.Report.Names.{Whole, Named, deep_name}
use cpufb.Cache.Report.Described.{last_of, before_last, note_of, capacity_text}

module _ {ℓ} {F : Type ℓ} (fl : Doubles F) (doubt : Bytes) where
  module _ (mf : Functions F) where
    unfoldable pub next : CacheLevelEstimate F → CacheData F → CacheData F
    next m d = record d {
      test_L3 = pos (m.capacity_bytes / 1024);
      test_L3_note = note_of fl doubt m;
    }

    unfoldable pub listed : Bytes → List Bytes → Bytes
    listed steps [] = steps
    listed steps (t ∷ ts) = listed (steps ++ (if is_empty steps then [] else codes ", ") ++ t) ts

    deep_step :
        (m l : CacheLevelEstimate F) (d : CacheData F) (steps : Bytes) (count : ℕ)
        → m.level ≡ codes "L" ++ to_string (count + 3)
        → Whole m.capacity_bytes
        → Whole l.capacity_bytes
        → d.test_L3 ≡ pos (l.capacity_bytes / 1024)
        → assign_level fl mf doubt m (d, steps)
          ≡ (next m d, steps ++ (if is_empty steps then [] else codes ", ") ++ capacity_text l)
    unfolding assign_level next note_of capacity_text above_zero from_int
    deep_step m l d steps count n w v e =
        let names = deep_name m.level count n in
        let small = to_int-small (m.capacity_bytes / 1024) (omega (arith, w.2)) in
        let there : ltb 0 (l.capacity_bytes / 1024) ≡ true = ground (arith, v.2) in
        let bytes : l.capacity_bytes / 1024 * 1024 % 2 ^ 64 ≡ l.capacity_bytes =
          omega (arith, v.2) in
        rw (names.0, names.1, small, e, there, bytes) refl

    -- What the deeper levels make of the data, which have `l` as the third level so far.
    pub record Deeper (d : CacheData F) (steps : Bytes) (l : CacheLevelEstimate F)
        (ls : List (CacheLevelEstimate F)) (r : CacheData F × Bytes) : Type ℓ where
      pub curve : r.0.curve ≡ d.curve
      pub trusted : r.0.curve_trusted ≡ d.curve_trusted
      pub l1 : r.0.test_L1 ≡ d.test_L1
      pub l2 : r.0.test_L2 ≡ d.test_L2
      pub note1 : r.0.test_L1_note ≡ d.test_L1_note
      pub note2 : r.0.test_L2_note ≡ d.test_L2_note
      pub l3 : r.0.test_L3 ≡ pos ((last_of l ls).capacity_bytes / 1024)
      pub note3 : r.0.test_L3_note ≡ note_of fl doubt (last_of l ls)
      pub text : r.1 ≡ listed steps (map capacity_text (before_last l ls))

    again :
        (m : CacheLevelEstimate F) (ms : List (CacheLevelEstimate F)) (d : CacheData F)
        (steps : Bytes) (l : CacheLevelEstimate F) {r : CacheData F × Bytes}
        → Deeper
            (next m d)
            (steps ++ (if is_empty steps then [] else codes ", ") ++ capacity_text l)
            m
            ms
            r
        → Deeper d steps l (m ∷ ms) r
    unfolding last_of before_last listed next
    again m ms d steps l v = record {
      curve = v.curve;
      trusted = v.trusted;
      l1 = v.l1;
      l2 = v.l2;
      note1 = v.note1;
      note2 = v.note2;
      l3 = v.l3;
      note3 = v.note3;
      text = v.text;
    }

    pub deeper :
        (l : CacheLevelEstimate F) (ls : List (CacheLevelEstimate F)) (d : CacheData F)
        (steps : Bytes) (count : ℕ)
        → Whole l.capacity_bytes
        → Named (count + 2) ls
        → d.test_L3 ≡ pos (l.capacity_bytes / 1024)
        → d.test_L3_note ≡ note_of fl doubt l
        → Deeper d steps l ls (assign_levels fl mf doubt ls (d, steps))
    unfolding assign_levels last_of before_last listed next
    deeper l [] d steps count w named e n = record {
      curve = refl;
      trusted = refl;
      l1 = refl;
      l2 = refl;
      note1 = refl;
      note2 = refl;
      l3 = e;
      note3 = n;
      text = refl;
    }
    deeper l (m ∷ ms) d steps count w (name, whole, named) e n =
        let step =
          deep_step m l d steps count (name ∙ ap (λ k. codes "L" ++ to_string k) (omega arith))
            whole w e in
        let same : count + 1 + 2 ≡ count + 2 + 1 = omega arith in
        let steps' = steps ++ (if is_empty steps then [] else codes ", ") ++ capacity_text l in
        let r : Deeper d steps l (m ∷ ms) (assign_levels fl mf doubt ms (next m d, steps')) =
          again m ms d steps l
            (deeper m ms (next m d) steps' (count + 1) whole (rw same named) refl refl) in
        rw step r
