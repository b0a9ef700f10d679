-- ===== src/Cache/Report/Rows.antt =====
-- common/cache/cache_report.cpp: the rows of append_cache_report_rows that set what the probes measured beside what
-- the operating system reports. `none` is a cell behind the end of a row.
use cpufb.Base.{
  ◌*◌, List, [], ◌∷◌, ◌++◌, Option, some, ◌&&◌, Bytes, codes, ltb, if◌then◌else◌, ◌>>=◌, u64, ◌≤◌,
  ◌≡◌, refl, arith, length, All, suc, ◌+◌,
}
use cpufb.Text.Bytes.{is_empty}
use cpufb.Table.{Table}
use cpufb.Table.Layout.{IsValid}
use cpufb.Integers.{ℤ, from_int, above_zero, to_double}
use cpufb.Doubles.{Doubles}
use cpufb.Cache.Sizes.{format_cache_capacity}
use cpufb.Cache.Levels.{CacheLevelInfo}
use cpufb.Bandwidth.Rows.{add_row}
use cpufb.Bandwidth.Added.{Adds, itself, none-Adds, widen-Adds, add_row-Adds, chain-Adds}
use cpufb.Cache.Report.{CacheData, kib_text, count_text, bytes_text, join_note}
use cpufb.Cache.Report.Verdicts.{
  describe_probe_agreement, describe_l1_geometry, describe_l1_curve_check, describe_shared_level,
  describe_l2_unmeasured, describe_line_cross_check, describe_deeper_line_sizes, format_probed_l3,
}

module _ {ℓ} {F : Type ℓ} (fl : Doubles F) where
  unfoldable pub with_agreement : Bytes → F → ℤ → F → Bytes → Bytes
  with_agreement source reported measured tolerance note =
      let agreement = describe_probe_agreement fl reported (to_double fl measured) tolerance in
      let verdict =
        if is_empty note
        then agreement
        else if above_zero measured
        then agreement ++ codes "; " ++ note
        else note in
      if is_empty source then verdict else source ++ codes "; " ++ verdict

  -- The row that a call of the local `add` appends.
  abbrev pub report_row : Bytes → Bytes → Bytes → Bytes → List Bytes
  report_row item reported measured verdict = item ∷ reported ∷ measured ∷ [] ∷ [] ∷ verdict ∷ []

  -- The rows, with the third level that the operating system reports.
  unfoldable pub report_rows : CacheData F → CacheLevelInfo → List (List Bytes)
  unfolding with_agreement
  report_rows report l3 =
      let l1_check =
        describe_l1_curve_check fl report.test_L1 report.test_way report.test_way_bytes in
      let bytes = u64 (from_int report.test_way * report.test_way_bytes) in
      let one = fl.literal 1 in
      let loose = fl.decimal 13 1 in
      report_row (codes "L1 data cache capacity") (kib_text report.theory_L1)
        (kib_text report.test_L1)
        (with_agreement report.theory_L1_source (to_double fl report.theory_L1) report.test_L1 loose
          (join_note report.test_L1_note l1_check))
      ∷ report_row (codes "L1 capacity from set conflicts") (kib_text report.theory_L1)
          (if above_zero report.test_way && ltb 0 report.test_way_bytes
            then format_cache_capacity bytes
            else codes "-")
          (describe_l1_geometry fl (u64 (from_int report.theory_L1 * 1024)) report.test_way
            report.test_way_bytes)
      ∷ report_row (codes "L2/unified cache capacity") (kib_text report.theory_L2)
          (kib_text report.test_L2)
          (with_agreement report.theory_L2_source (to_double fl report.theory_L2) report.test_L2
            loose report.test_L2_note)
      ∷ report_row (codes "L3/unified cache capacity")
          (if ltb 0 l3.bytes then format_cache_capacity l3.bytes else codes "-")
          (format_probed_l3 report.test_L3 report.hierarchy_complete)
          (if above_zero report.test_L3
            then with_agreement [] (fl.divide (fl.literal l3.bytes) (fl.literal 1024))
                report.test_L3 loose
                (join_note report.test_L3_note (describe_shared_level l3 report.test_L3))
            else l3.source)
      ∷ report_row (codes "L1 ways of associativity") (count_text report.theory_way)
          (count_text report.test_way)
          (with_agreement [] (to_double fl report.theory_way) report.test_way one [])
      ∷ report_row (codes "L2 ways of associativity") (count_text report.theory_l2_way)
          (count_text report.test_l2_way)
          (if above_zero report.test_l2_way
            then with_agreement [] (to_double fl report.theory_l2_way) report.test_l2_way one []
            else describe_l2_unmeasured report.test_l2_way)
      ∷ report_row (codes "L1 cacheline size") (bytes_text report.theory_cacheline)
          (bytes_text report.test_cacheline)
          (with_agreement [] (to_double fl report.theory_cacheline) report.test_cacheline one
            (describe_line_cross_check report.test_cacheline report.test_line_from_sets))
      ∷ report_row (codes "L2 cacheline size") (bytes_text report.theory_l2_line)
          (bytes_text report.test_l2_line)
          (join_note
            (if above_zero report.test_l2_line
              then describe_probe_agreement fl (to_double fl report.theory_l2_line)
                  (to_double fl report.test_l2_line) one
                ++ codes "; from set indexing"
              else describe_l2_unmeasured report.test_l2_line)
            (describe_deeper_line_sizes l3 report.theory_l2_line))
      ∷ []

  unfoldable pub add_rows : Table → List (List Bytes) → Option Table
  add_rows table [] = some table
  add_rows table (row ∷ rows) = do next ← add_row table row; add_rows next rows

  unfoldable pub append_report_rows : Table → CacheData F → CacheLevelInfo → Option Table
  unfolding report_rows add_rows
  append_report_rows table report l3 = add_rows table (report_rows report l3)

  -- All rows have six cells, so that a table of six columns takes them.
  add_rows-Adds :
      (rows : List (List Bytes)) (table : Table)
      → All (λ row. length row ≡ 6) rows
      → IsValid table
      → 6 ≤ table.col
      → Adds itself (length rows) (length rows) table (add_rows table rows)
  unfolding add_rows
  add_rows-Adds [] table six v h = none-Adds itself table v
  add_rows-Adds (row ∷ rows) table six v h =
      widen-Adds itself (1 + length rows) (1 + length rows) (suc (length rows)) (suc (length rows))
        table _ (omega arith) (omega arith)
        (chain-Adds itself itself 1 1 (length rows) (length rows) table (add_row table row)
          (λ next. add_rows next rows) (add_row-Adds table row v (omega (arith, six.0, h)))
          (λ next w c. add_rows-Adds rows next six.1 w (omega (arith, c, h))))

  -- The eight rows go behind those of a table with six columns, which stays well formed.
  pub append_report_rows-Adds :
      (table : Table) (report : CacheData F) (l3 : CacheLevelInfo)
      → IsValid table
      → 6 ≤ table.col
      → Adds itself 8 8 table (append_report_rows table report l3)
  unfolding append_report_rows report_rows
  append_report_rows-Adds table report l3 v h =
      add_rows-Adds (report_rows report l3) table
        (refl, (refl, (refl, (refl, (refl, (refl, (refl, (refl, tt)))))))) v h
