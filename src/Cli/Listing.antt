-- ===== src/Cli/Listing.antt =====
-- common/cli.cpp: the table of print_benchmark_instructions.
use cpufb.Base.{
  ◌≡◌, true, false, refl, ◌∙◌, sym, ap, List, [], ◌∷◌, ◌++◌, some, inl, inr, Bytes, codes,
  if◌then◌else◌, All, subst, arith, append-nil, append_assoc, Bool-cases,
}
use cpufb.Table.{Table, empty, set_column_num}
use cpufb.Integers.{ℤ}
use cpufb.Table.Printed.{Printed}
use cpufb.Table.Narrow.{
  Brief, IsNarrow, start-IsNarrow, start-nil, add_one_item-IsNarrow, print-IsNarrow,
}
use cpufb.Cli.Options.{BenchmarkInfo}
use cpufb.Text.Bytes.{bytes_eq}
use cpufb.Cli.Filter.{get_benchmark_test_type, is_compute_instruction_candidate}
use cpufb.Cli.Report.{instruction_rows, print_benchmark_instructions}

-- The cells of the throughput rows of the compute benchmarks.
unfoldable pub candidates : List BenchmarkInfo → List (List Bytes)
candidates [] = []
candidates (item ∷ items) =
    if item.is_latency
    then candidates items
    else if bytes_eq (get_benchmark_test_type item.metric) (codes "compute")
    then (item.isa ∷ item.instruction ∷ item.metric ∷ []) ∷ candidates items
    else candidates items

listed :
    (item : BenchmarkInfo) (items : List BenchmarkInfo)
    → is_compute_instruction_candidate item ≡ true
    → candidates (item ∷ items)
      ≡ (item.isa ∷ item.instruction ∷ item.metric ∷ []) ∷ candidates items
unfolding candidates is_compute_instruction_candidate
listed item items e = ground (arith, e)

not_listed :
    (item : BenchmarkInfo) (items : List BenchmarkInfo)
    → is_compute_instruction_candidate item ≡ false
    → candidates (item ∷ items) ≡ candidates items
unfolding candidates is_compute_instruction_candidate
not_listed item items e = ground (arith, e)

instruction_rows-candidates :
    (items : List BenchmarkInfo) (table : Table)
    → IsNarrow table
    → All Brief (candidates items)
    → (u : Table) × (instruction_rows table items ≡ some u)
      × IsNarrow u
      × (u.contents ≡ table.contents ++ candidates items)
unfolding instruction_rows candidates
instruction_rows-candidates [] table v b = (table, refl, v, sym (append-nil table.contents))
instruction_rows-candidates (item ∷ items) table v b =
    elim (Bool-cases (is_compute_instruction_candidate item)) [
      | inl e ↦
          let row = item.isa ∷ item.instruction ∷ item.metric ∷ [] in
          let both = subst (All Brief) (listed item items e) b in
          let (next, f, d, w) = add_one_item-IsNarrow table row v (omega arith) both.0 in
          let (u, g, x, y) = instruction_rows-candidates items next w both.1 in
          (
            u,
            rw (e, f, g) refl,
            x,
            y
                ∙ ap (λ l. l ++ candidates items) d
                ∙ append_assoc table.contents (row ∷ []) (candidates items)
                ∙ ap (λ l. table.contents ++ l) (sym (listed item items e)),
          )
      | inr e ↦
          let others = subst (All Brief) (not_listed item items e) b in
          let (u, g, x, y) = instruction_rows-candidates items table v others in
          (u, rw (e, g) refl, x, y ∙ ap (λ l. table.contents ++ l) (sym (not_listed item items e)))
    ]

-- Where the size of each cell plus two is at most 2 ^ 29, the list of the instructions is printed:
-- for columns of some widths, the line of the head and one for each throughput row of a compute
-- benchmark, in order, between two rules of dashes, all of the same length.
pub print_benchmark_instructions-candidates :
    (catalog : List BenchmarkInfo)
    → All Brief (candidates catalog)
    → (lines : List Bytes) × (widths : List ℤ) × (print_benchmark_instructions catalog ≡ some lines)
      × Printed 3 widths
          ((codes "Instruction Set" ∷ codes "Core Computation" ∷ codes "Metric" ∷ [])
            ∷ candidates catalog)
          lines
unfolding print_benchmark_instructions
print_benchmark_instructions-candidates catalog b =
    let titles = codes "Instruction Set" ∷ codes "Core Computation" ∷ codes "Metric" ∷ [] in
    let (head, f, d, w) =
      add_one_item-IsNarrow (set_column_num empty 3) titles start-IsNarrow (omega arith)
        (omega arith) in
    let (u, g, x, y) = instruction_rows-candidates catalog head w b in
    let (lines, widths, p, q) = print-IsNarrow u x in
    (
      lines,
      widths,
      rw (f, g) p,
      subst (λ rows. Printed 3 widths rows lines)
          (y ∙ ap (λ l. l ++ candidates catalog) (d ∙ ap (λ l. l ++ titles ∷ []) start-nil)) q,
    )
