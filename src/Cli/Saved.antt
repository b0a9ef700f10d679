-- ===== src/Cli/Saved.antt =====
-- common/cli.cpp: what the saved file and the printed tables hold.
use cpufb.Base.{
  Option-cases, ◌≤◌, ◌≡◌, ◌≢◌, refl, ◌∙◌, List, [], ◌∷◌, ◌++◌, Option, some, true, ◌>>=◌, inl, inr,
  Bytes, length, All, append-nil, append_assoc,
}
use cpufb.Table.{Table, write_compact}
use cpufb.Table.Reader.{State, step, at, start, run, read_csv, finish}
use cpufb.Table.Csv.{labelled, compact_rows-run}
use cpufb.Cli.Options.{SaveOptions, csv}
use cpufb.Cli.Report.{Section, csv_text, sections_text, with_system, saved, save_table_sections}

run-append : (s : State) (a b : Bytes) → run s (a ++ b) ≡ (run s a >>= λ t. run t b)
unfolding run
run-append s [] b = refl
run-append s (c ∷ a) b = elim (Option-cases (step s c)) [
  | inl e ↦ rw e refl
  | inr (t, e) ↦ rw e (run-append t a b)
]

-- A section has a name, and enough cells in each of its rows.
pub record IsNamed (section : Section) : Type 0 where
  pub name : section.0 ≢ []
  pub cells : All (λ r. section.1.col ≤ length r) section.1.contents

-- The rows of the file: each row of each section behind its label.
abbrev pub all_rows : List Section → List (List Bytes)
all_rows [] = []
all_rows (section ∷ sections) =
    labelled section.1.col true section.0 section.1.contents ++ all_rows sections

csv_text-run :
    (sections : List Section)
    → All IsNamed sections
    → (out : Bytes) × (csv_text sections ≡ some out)
      × ((rows : List (List Bytes))
          → run (at start [] [] rows) out ≡ some (at start [] [] (rows ++ all_rows sections)))
unfolding csv_text write_compact run
csv_text-run [] v = ([], refl, λ rows. rw append-nil refl)
csv_text-run (section ∷ sections) v =
    let (out, e, reads) =
      compact_rows-run section.1.col section.0 true section.1.contents (inr v.0.name) v.0.cells in
    let (rest, f, more) = csv_text-run sections v.1 in
    (
      out ++ rest,
      rw (e, f) refl,
      λ rows.
          run-append (at start [] [] rows) out rest
          ∙ rw (reads rows) (
              more (rows ++ labelled section.1.col true section.0 section.1.contents)
              ∙ rw append_assoc refl),
    )

-- A file saved as CSV holds the rows of every section behind their labels.
pub read_csv-save_table_sections :
    (system : Option Table) (o : SaveOptions) (sections : List Section)
    → o.enabled ≡ true
    → o.format ≡ csv
    → All IsNamed (with_system system sections)
    → (out : Bytes) × (save_table_sections true system o sections ≡ some (saved out))
      × (read_csv out ≡ some (all_rows (with_system system sections)))
unfolding save_table_sections sections_text read_csv finish
read_csv-save_table_sections system o sections h c v =
    let (out, e, reads) = csv_text-run (with_system system sections) v in
    (out, rw (h, c, e) refl, rw (reads []) refl)
