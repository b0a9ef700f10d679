-- ===== src/Cli/Arguments.antt =====
-- common/cli.cpp: the tests of parse_cli_options on one argument, and the lists of a filter.
use cpufb.Base.{
  List, [], ◌∷◌, ◌++◌, Option, none, some, Bool, true, false, not, Bytes, codes, ◌==◌,
  if◌then◌else◌,
}
use cpufb.Text.Bytes.{bytes_eq, strip_prefix, is_empty}
use cpufb.Text.Trim.{normalize_filter_value}
use cpufb.Text.StringSet.{insert, member}
use cpufb.Cli.Options.{SaveFormat, txt, csv, unknown_category, Result, ok, err}

-- `kTestCategories`.
abbrev pub test_categories : List Bytes
test_categories =
    codes "compute" ∷ codes "load" ∷ codes "cache" ∷ codes "freq" ∷ codes "multi_issue" ∷ []

-- `getline` with a comma, until it fails: `started` says that a byte of the piece was read.
unfoldable pub pieces : Bool → Bytes → Bytes → List Bytes
pieces false piece [] = []
pieces true piece [] = piece ∷ []
pieces started piece (c ∷ s) =
    let comma = c == b',' in
    let rest = pieces (not comma) (if comma then [] else piece ++ c ∷ []) s in
    if comma then piece ∷ rest else rest

unfoldable pub insert_items : List Bytes → List Bytes → List Bytes
insert_items [] target = target
insert_items (item ∷ items) target =
    let value = normalize_filter_value item in
    insert_items items (if is_empty value then target else insert value target)

unfoldable pub parse_filter_list : Bytes → List Bytes → List Bytes
unfolding pieces insert_items
parse_filter_list value target = insert_items (pieces false [] value) target

unfoldable pub parse_save_format : Bytes → Option SaveFormat
parse_save_format value =
    let normalized = normalize_filter_value value in
    if bytes_eq normalized (codes "txt")
    then some txt
    else if bytes_eq normalized (codes "tsv")
    then some txt
    else if bytes_eq normalized (codes "csv")
    then some csv
    else none

unfoldable pub validate_test_categories : List Bytes → Result (Unit {0})
validate_test_categories [] = ok tt
validate_test_categories (value ∷ values) =
    let rest = validate_test_categories values in
    if member value test_categories then rest else err (unknown_category value)

-- The options, each with the text behind its prefix.
pub data Argument : Type 0 where
  thread_pool idle_time loop_scale bench_limit mode : Bytes → Argument
  include_isa exclude_isa include_test exclude_test : Bytes → Argument
  list_categories list_instructions : Argument
  sweep_instruction scale_instruction : Bytes → Argument
  memory_bandwidth : Argument
  memory_size_mib memory_repetitions : Bytes → Argument
  save output save_format output_format : Bytes → Argument
  unknown : Bytes → Argument

-- The tests of the loop, in its order: a prefix of the argument, or the whole of it.
pub data Rule : Type 0 where
  prefixed : Bytes → (Bytes → Argument) → Rule
  exact : Bytes → Argument → Rule

abbrev pub rules : List Rule
rules =
    prefixed (codes "--thread_pool=") thread_pool
    ∷ prefixed (codes "--idle_time=") idle_time
    ∷ prefixed (codes "--loop_scale=") loop_scale
    ∷ prefixed (codes "--bench_limit=") bench_limit
    ∷ prefixed (codes "--mode=") mode
    ∷ prefixed (codes "--include-isa=") include_isa
    ∷ prefixed (codes "--exclude-isa=") exclude_isa
    ∷ prefixed (codes "--include-test=") include_test
    ∷ prefixed (codes "--exclude-test=") exclude_test
    ∷ exact (codes "--list-categories") list_categories
    ∷ exact (codes "--list-instructions") list_instructions
    ∷ prefixed (codes "--sweep-instruction=") sweep_instruction
    ∷ prefixed (codes "--scale-instruction=") scale_instruction
    ∷ exact (codes "--memory-bandwidth") memory_bandwidth
    ∷ prefixed (codes "--memory-size-mib=") memory_size_mib
    ∷ prefixed (codes "--memory-repetitions=") memory_repetitions
    ∷ prefixed (codes "--save=") save
    ∷ prefixed (codes "--output=") output
    ∷ prefixed (codes "--save-format=") save_format
    ∷ prefixed (codes "--output-format=") output_format
    ∷ []

unfoldable pub classify_by : List Rule → Bytes → Argument
classify_by [] arg = unknown arg
classify_by (prefixed p f ∷ rs) arg =
    let rest = classify_by rs arg in elim (strip_prefix p arg) [ some v ↦ f v | none ↦ rest ]
classify_by (exact p a ∷ rs) arg =
    let rest = classify_by rs arg in if bytes_eq arg p then a else rest

unfoldable pub classify : Bytes → Argument
unfolding classify_by
classify arg = classify_by rules arg
