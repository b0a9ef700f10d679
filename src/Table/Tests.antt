-- ===== src/Table/Tests.antt =====
-- Runs of the table, and its theorems at concrete tables.
use cpufb.Base.{◌≡◌, refl, List, [], ◌∷◌, ◌++◌, some, arith, Bytes, codes, true, inl, inr}
use cpufb.Table.{Table, comma, add_one_item, print, write_compact}
use cpufb.Integers.{pos}
use cpufb.Table.Layout.{IsValid, add_one_item-IsValid}
use cpufb.Table.Printed.{Printed, print-aligned}
use cpufb.Table.Reader.{read_csv}
use cpufb.Table.Csv.{labelled, read_csv-write_compact}

abbrev two_rows : Table
two_rows = record {
  col = 2;
  col_widths = pos 6 ∷ pos 5 ∷ [];
  contents = (codes "a" ∷ codes "b,c" ∷ []) ∷ (codes "\"x\"" ∷ [] ∷ codes "extra" ∷ []) ∷ [];
}

two_rows-IsValid : IsValid two_rows
two_rows-IsValid = record {
  widths = refl;
  wide = omega arith;
  fits = (
    (inr (omega arith), (inr (omega arith), tt)),
    ((inr (omega arith), (inr (omega arith), tt)), tt),
  );
}

two_rows-print :
    print two_rows
    ≡ some (
        codes "--------------"
        ∷ codes "| a    | b,c |"
        ∷ codes "| \"x\"  |     |"
        ∷ codes "--------------"
        ∷ [])
unfolding print cpufb.Integers.int_add cpufb.Integers.to_int
two_rows-print = refl

two_rows-csv :
    write_compact two_rows comma (codes "t") ≡ some (codes "section,a,\"b,c\"\nt,\"\"\"x\"\"\",\n")
unfolding write_compact
two_rows-csv = refl

print-aligned_example :
    (lines : List Bytes) × (print two_rows ≡ some lines)
    × Printed 2 (pos 6 ∷ pos 5 ∷ []) two_rows.contents lines
print-aligned_example = print-aligned two_rows two_rows-IsValid (omega arith) (omega arith)

add_one_item_example :
    (u : Table) × (add_one_item two_rows (codes "longer" ∷ codes "d" ∷ []) ≡ some u)
    × (u.col ≡ 2)
    × (u.contents ≡ two_rows.contents ++ (codes "longer" ∷ codes "d" ∷ []) ∷ [])
    × IsValid u
add_one_item_example =
    add_one_item-IsValid two_rows (codes "longer" ∷ codes "d" ∷ []) two_rows-IsValid (omega arith)

csv_example :
    (out : Bytes) × (write_compact two_rows comma (codes "t") ≡ some out)
    × (read_csv out ≡ some (labelled 2 true (codes "t") two_rows.contents))
csv_example = read_csv-write_compact two_rows (codes "t") (inl (omega arith)) (omega arith)
