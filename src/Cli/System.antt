-- ===== src/Cli/System.antt =====
-- common/sys/system_info.cpp and common/cli.cpp: the table of the system information.
use cpufb.Base.{
  ◌≡◌, refl, sym, ◌∙◌, ap, List, [], ◌∷◌, ◌++◌, Option, none, some, ◌>>=◌, Bytes, codes, All, subst,
  arith, append-nil, append_assoc,
}
use cpufb.Table.{Table, empty, set_column_num, add_one_item, print}
use cpufb.Integers.{ℤ}
use cpufb.Table.Printed.{Printed}
use cpufb.Table.Narrow.{
  Brief, IsNarrow, start-IsNarrow, start-nil, add_one_item-IsNarrow, print-IsNarrow,
}
use cpufb.Cli.Migration.{SystemInfoEntry}

unfoldable pub entry_rows : Table → List SystemInfoEntry → Option Table
entry_rows table [] = some table
entry_rows table (entry ∷ entries) = do
  next ← add_one_item table (entry.item ∷ entry.value ∷ entry.source ∷ [])
  entry_rows next entries

-- On a table with no rows.
unfoldable pub populate_system_info_table : List SystemInfoEntry → Table → Option Table
unfolding entry_rows
populate_system_info_table entries table = do
  head ← add_one_item (set_column_num table 3) (codes "Item" ∷ codes "Value" ∷ codes "Source" ∷ [])
  entry_rows head entries

-- The lines of print_system_information; `none` is a system that was not initialized.
unfoldable pub print_system_information : Option (List SystemInfoEntry) → Option (List Bytes)
print_system_information none = some []
print_system_information (some entries) = do
  table ← populate_system_info_table entries empty
  lines ← print table
  some (codes "System Information:" ∷ lines)

unfoldable pub cells : List SystemInfoEntry → List (List Bytes)
cells [] = []
cells (entry ∷ entries) = (entry.item ∷ entry.value ∷ entry.source ∷ []) ∷ cells entries

entry_rows-cells :
    (entries : List SystemInfoEntry) (table : Table)
    → IsNarrow table
    → All Brief (cells entries)
    → (u : Table) × (entry_rows table entries ≡ some u)
      × IsNarrow u
      × (u.contents ≡ table.contents ++ cells entries)
unfolding entry_rows cells
entry_rows-cells [] table v b = (table, refl, v, sym (append-nil table.contents))
entry_rows-cells (entry ∷ entries) table v b =
    let row = entry.item ∷ entry.value ∷ entry.source ∷ [] in
    let (next, f, d, w) = add_one_item-IsNarrow table row v (omega arith) b.0 in
    let (u, g, x, y) = entry_rows-cells entries next w b.1 in
    (
      u,
      rw (f, g) refl,
      x,
      y ∙ ap (λ l. l ++ cells entries) d ∙ append_assoc table.contents (row ∷ []) (cells entries),
    )

populate_system_info_table-IsNarrow :
    (entries : List SystemInfoEntry)
    → All Brief (cells entries)
    → (t : Table) × (populate_system_info_table entries empty ≡ some t)
      × (t.contents ≡ (codes "Item" ∷ codes "Value" ∷ codes "Source" ∷ []) ∷ cells entries)
      × IsNarrow t
unfolding populate_system_info_table
populate_system_info_table-IsNarrow entries b =
    let titles = codes "Item" ∷ codes "Value" ∷ codes "Source" ∷ [] in
    let (head, f, d, w) =
      add_one_item-IsNarrow (set_column_num empty 3) titles start-IsNarrow (omega arith)
        (omega arith) in
    let (t, g, x, y) = entry_rows-cells entries head w b in
    (
      t,
      rw (f, g) refl,
      y ∙ ap (λ l. l ++ cells entries) (d ∙ ap (λ l. l ++ titles ∷ []) start-nil),
      x,
    )

-- System information in whose cells the size plus two is at most 2 ^ 29 is printed: the title, and
-- behind it, for columns of some widths, the line of the head and one for each entry, in order,
-- between two rules of dashes, all of the same length.
pub print_system_information-cells :
    (entries : List SystemInfoEntry)
    → All Brief (cells entries)
    → (lines : List Bytes) × (widths : List ℤ) × (print_system_information (some entries)
        ≡ some (codes "System Information:" ∷ lines))
      × Printed 3 widths
          ((codes "Item" ∷ codes "Value" ∷ codes "Source" ∷ []) ∷ cells entries)
          lines
unfolding print_system_information
print_system_information-cells entries b =
    let (t, e, c, v) = populate_system_info_table-IsNarrow entries b in
    let (lines, widths, f, p) = print-IsNarrow t v in
    (lines, widths, rw (e, f) refl, subst (λ rows. Printed 3 widths rows lines) c p)
