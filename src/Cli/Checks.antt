-- ===== src/Cli/Checks.antt =====
-- common/cli.cpp: what the checks of the options accept.
use cpufb.Base.{
  ◌≡◌, ◌↔◌, refl, List, [], ◌∷◌, Bool, true, false, arith, ◌&&◌, ◌||◌, Bytes, codes, All,
}
use cpufb.Text.Bytes.{bytes_eq}
use cpufb.Text.Trim.{trim_idem, normalize_filter_value}
use cpufb.Text.StringSet.{insert, member, no_elements, member-insert}
use cpufb.Cli.Options.{
  BenchmarkInfo, SaveOptions, Error, unknown_category, unavailable_isa, BenchmarkFilter, ok,
}
use cpufb.Cli.Arguments.{test_categories}
use cpufb.Cli.Filter.{
  get_benchmark_test_type, valid_isas, check_values, validate_benchmark_filter,
  finalize_save_options,
}

-- A benchmark of the catalog computes, and its ISA is the name.
unfoldable pub has_isa : Bytes → List BenchmarkInfo → Bool
has_isa isa [] = false
has_isa isa (item ∷ items) =
    bytes_eq (get_benchmark_test_type item.metric) (codes "compute")
      && bytes_eq isa (normalize_filter_value item.isa)
    || has_isa isa items

member-nil : (k : Bytes) → member k [] ≡ false
unfolding member
member-nil k = refl

no_elements→nil : (xs : List Bytes) → no_elements xs ≡ true → xs ≡ []
unfolding no_elements
no_elements→nil [] h = refl
no_elements→nil (x ∷ xs) h = cc

member-valid_isas :
    (isa : Bytes) (items : List BenchmarkInfo) (isas : List Bytes)
    → member isa (valid_isas items isas) ≡ (has_isa isa items || member isa isas)
unfolding valid_isas has_isa
member-valid_isas isa [] isas = refl
member-valid_isas isa (item ∷ items) isas = ground (
  arith,
  member-valid_isas isa items isas,
  member-valid_isas isa items (insert (normalize_filter_value item.isa) isas),
  member-insert isa (normalize_filter_value item.isa) isas,
)

check_values-ok :
    (valid : List Bytes) (message : Bytes → Error) (values : List Bytes)
    → (check_values valid message values ≡ ok tt) ↔ All (λ value. member value valid ≡ true) values
unfolding check_values
check_values-ok valid message [] = (λ _. tt, λ _. refl)
check_values-ok valid message (value ∷ values) =
    ground (arith, check_values-ok valid message values)

check_isas-ok :
    (values : List Bytes) (catalog : List BenchmarkInfo)
    → (check_values (valid_isas catalog []) unavailable_isa values ≡ ok tt)
      ↔ All (λ isa. has_isa isa catalog ≡ true) values
unfolding check_values
check_isas-ok [] catalog = (λ _. tt, λ _. refl)
check_isas-ok (value ∷ values) catalog =
    ground
      (arith, check_isas-ok values catalog, member-valid_isas value catalog [], member-nil value)

-- A filter is accepted exactly when it names test categories, and ISAs of the catalog, only.
pub validate_benchmark_filter-ok :
    (filter : BenchmarkFilter) (catalog : List BenchmarkInfo)
    → (validate_benchmark_filter filter catalog ≡ ok tt) ↔ (
        All (λ value. member value test_categories ≡ true) filter.include_test
        × All (λ value. member value test_categories ≡ true) filter.exclude_test
        × All (λ isa. has_isa isa catalog ≡ true) filter.include_isa
        × All (λ isa. has_isa isa catalog ≡ true) filter.exclude_isa)
unfolding validate_benchmark_filter
validate_benchmark_filter-ok filter catalog = ground (
  arith,
  check_values-ok test_categories unknown_category filter.include_test,
  check_values-ok test_categories unknown_category filter.exclude_test,
  check_isas-ok filter.include_isa catalog,
  check_isas-ok filter.exclude_isa catalog,
)

-- Finalized options are left alone when they are finalized again.
finalize_save_options_idem :
    (o o' : SaveOptions) → finalize_save_options o ≡ ok o' → finalize_save_options o' ≡ ok o'
unfolding finalize_save_options
finalize_save_options_idem o o' h = ground (arith, trim_idem o.path)
