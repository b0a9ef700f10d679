-- ===== src/Cache/Report/Assigned.antt =====
-- common/cache/cache_report.cpp: the loop of assign_curve over the levels of a curve.
use cpufb.Base.{
  ◌+◌, ◌/◌, ◌≡◌, refl, ap, ◌∙◌, List, [], ◌∷◌, ◌++◌, map, Bool, Bytes, codes, arith, get_elem?,
  drop,
}
use cpufb.Text.Bytes.{bytes_eq}
use cpufb.Text.Decimal.{to_string}
use cpufb.Integers.{pos, above_zero, to_int-small}
use cpufb.Doubles.{Doubles}
use cpufb.Cache.Curve.{Functions, CacheLevelEstimate}
use cpufb.Cache.Report.{CacheData, assign_level, assign_levels, cleared}
use cpufb.Cache.Report.Names.{Whole, Named}
use cpufb.Cache.Report.Described.{
  size_of, deepest, between, last_of, before_last, note_of, noted, capacity_text,
}
use cpufb.Cache.Report.Deeper.{next, listed, deeper}

module _ {ℓ} {F : Type ℓ} (fl : Doubles F) (doubt : Bytes) where
  module _ (mf : Functions F) where
    first_step :
        (m : CacheLevelEstimate F) (d : CacheData F) (steps : Bytes)
        → m.level ≡ codes "L" ++ to_string (0 + 1)
        → Whole m.capacity_bytes
        → assign_level fl mf doubt m (d, steps) ≡ (
          record d { test_L1 = pos (m.capacity_bytes / 1024); test_L1_note = note_of fl doubt m },
          steps,
        )
    unfolding assign_level note_of bytes_eq to_string
    first_step m d steps n w =
        rw (n, to_int-small (m.capacity_bytes / 1024) (omega (arith, w.2))) refl

    second_step :
        (m : CacheLevelEstimate F) (d : CacheData F) (steps : Bytes)
        → m.level ≡ codes "L" ++ to_string (0 + 1 + 1)
        → Whole m.capacity_bytes
        → assign_level fl mf doubt m (d, steps) ≡ (
          record d { test_L2 = pos (m.capacity_bytes / 1024); test_L2_note = note_of fl doubt m },
          steps,
        )
    unfolding assign_level note_of bytes_eq to_string
    second_step m d steps n w =
        rw (n, to_int-small (m.capacity_bytes / 1024) (omega (arith, w.2))) refl

    third_step :
        (m : CacheLevelEstimate F) (d : CacheData F) (steps : Bytes)
        → m.level ≡ codes "L" ++ to_string (0 + 1 + 1 + 1)
        → Whole m.capacity_bytes
        → d.test_L3 ≡ pos 0
        → assign_level fl mf doubt m (d, steps) ≡ (next fl doubt mf m d, steps)
    unfolding assign_level next note_of bytes_eq to_string above_zero
    third_step m d steps n w e =
        rw (n, e, to_int-small (m.capacity_bytes / 1024) (omega (arith, w.2))) refl

  module _ (mf : Functions F) where
    -- The data behind the loop, which started from cleared data.
    pub record Gathered (levels : List (CacheLevelEstimate F)) (trusts : Bool) (d : CacheData F)
        (r : CacheData F × Bytes) : Type ℓ where
      pub curve : r.0.curve ≡ d.curve
      pub trusted : r.0.curve_trusted ≡ trusts
      pub l1 : r.0.test_L1 ≡ size_of (get_elem? levels 0)
      pub l2 : r.0.test_L2 ≡ size_of (get_elem? levels 1)
      pub l3 : r.0.test_L3 ≡ size_of (deepest (drop 2 levels))
      pub note1 : r.0.test_L1_note ≡ noted fl doubt (get_elem? levels 0)
      pub note2 : r.0.test_L2_note ≡ noted fl doubt (get_elem? levels 1)
      pub note3 : r.0.test_L3_note ≡ noted fl doubt (deepest (drop 2 levels))
      pub text : r.1 ≡ listed fl doubt mf [] (map capacity_text (between (drop 2 levels)))

    moved :
        (levels : List (CacheLevelEstimate F)) (trusts : Bool) (report : CacheData F)
        {r s : CacheData F × Bytes}
        → r ≡ s
        → Gathered levels trusts report s
        → Gathered levels trusts report r
    moved levels trusts report e v = rw e v

    two :
        (ls : List (CacheLevelEstimate F)) (a b : CacheLevelEstimate F) (trusts : Bool)
        (report : CacheData F)
        → (a.level ≡ codes "L" ++ to_string (0 + 1)) × Whole a.capacity_bytes
        → (b.level ≡ codes "L" ++ to_string (0 + 1 + 1)) × Whole b.capacity_bytes
        → assign_levels fl mf doubt (a ∷ b ∷ ls) (cleared trusts report, [])
          ≡ assign_levels fl mf doubt ls (
            record (cleared trusts report) {
              test_L1 = pos (a.capacity_bytes / 1024);
              test_L1_note = note_of fl doubt a;
              test_L2 = pos (b.capacity_bytes / 1024);
              test_L2_note = note_of fl doubt b;
            },
            [],
          )
    unfolding assign_levels
    two ls a b trusts report n m =
        ap (λ s. assign_levels fl mf doubt ls (assign_level fl mf doubt b s))
          (first_step mf a (cleared trusts report) [] n.0 n.1)
        ∙ ap (assign_levels fl mf doubt ls) (second_step mf b _ [] m.0 m.1)

    pub gathered :
        (levels : List (CacheLevelEstimate F)) (trusts : Bool) (report : CacheData F)
        → Named 0 levels
        → Gathered levels trusts report
            (assign_levels fl mf doubt levels (cleared trusts report, []))
    unfolding assign_levels cleared size_of deepest between noted listed last_of before_last next
    gathered [] trusts report named = record {
      curve = refl;
      trusted = refl;
      l1 = refl;
      l2 = refl;
      l3 = refl;
      note1 = refl;
      note2 = refl;
      note3 = refl;
      text = refl;
    }
    gathered (a ∷ []) trusts report (n, w, named) =
        moved (a ∷ []) trusts report (first_step mf a (cleared trusts report) [] n w) (record {
          curve = refl;
          trusted = refl;
          l1 = refl;
          l2 = refl;
          l3 = refl;
          note1 = refl;
          note2 = refl;
          note3 = refl;
          text = refl;
        })
    gathered (a ∷ b ∷ []) trusts report (n, w, (m, v, named)) =
        moved (a ∷ b ∷ []) trusts report (two [] a b trusts report (n, w) (m, v)) (record {
          curve = refl;
          trusted = refl;
          l1 = refl;
          l2 = refl;
          l3 = refl;
          note1 = refl;
          note2 = refl;
          note3 = refl;
          text = refl;
        })
    gathered (a ∷ b ∷ c ∷ ls) trusts report (n, w, (m, v, (p, u, named))) =
        let r = deeper fl doubt mf c ls _ [] 1 u named refl refl in
        moved (a ∷ b ∷ c ∷ ls) trusts report
          (two (c ∷ ls) a b trusts report (n, w) (m, v)
            ∙ ap (assign_levels fl mf doubt ls) (third_step mf c _ [] p u refl))
          (record {
            curve = r.curve;
            trusted = r.trusted;
            l1 = r.l1;
            l2 = r.l2;
            l3 = r.l3;
            note1 = r.note1;
            note2 = r.note2;
            note3 = r.note3;
            text = r.text;
          })
