-- ===== src/Cli/Known.antt =====
-- common/cli.cpp: the arguments that parse_cli_options refuses.
use cpufb.Base.{
  is_some, ◌≡◌, refl, List, [], ◌∷◌, Bool, true, false, arith, ◌||◌, Bytes, All, inl, inr,
  Bool-cases,
}
use cpufb.Text.Bytes.{strip_prefix, bytes_eq}
use cpufb.Cli.Options.{
  CliOptions, default_options, ok, Holds, Holds->>=, Holds-map, Result-Holds, Holds-ok,
}
use cpufb.Cli.Arguments.{Rule, prefixed, exact, rules, unknown, classify_by, classify}
use cpufb.Cli.Parse.{apply, apply_mode, parse_arguments, parse_cli_options}

-- Some rule takes the argument.
unfoldable pub is_option : List Rule → Bytes → Bool
is_option [] arg = false
is_option (prefixed p f ∷ rs) arg = is_some (strip_prefix p arg) || is_option rs arg
is_option (exact p a ∷ rs) arg = bytes_eq arg p || is_option rs arg

classify-unknown :
    (rs : List Rule) (arg : Bytes) → is_option rs arg ≡ false → classify_by rs arg ≡ unknown arg
unfolding classify_by is_option
classify-unknown [] arg h = refl
classify-unknown (prefixed p f ∷ rs) arg h = ground (arith, classify-unknown rs arg)
classify-unknown (exact p a ∷ rs) arg h = ground (arith, classify-unknown rs arg)

apply-is_option :
    (o : CliOptions) (arg : Bytes)
    → Holds (λ _. is_option rules arg ≡ true) (apply o (classify arg))
unfolding classify apply
apply-is_option o arg = elim (Bool-cases (is_option rules arg)) [
  | inl e ↦ Result-Holds (apply o (classify_by rules arg)) (λ _ _. e)
  | inr e ↦ rw (Holds, classify-unknown rules arg e) tt
]

parse_arguments-is_option :
    (o : CliOptions) (args : List Bytes)
    → Holds (λ _. All (λ arg. is_option rules arg ≡ true) args) (parse_arguments o args)
unfolding parse_arguments
parse_arguments-is_option o [] = tt
parse_arguments-is_option o (arg ∷ args) =
    Holds->>= (λ _. is_option rules arg ≡ true) _ (apply o (classify arg)) _ (apply-is_option o arg)
      (λ next e.
        Holds-map (parse_arguments next args) (λ _ r. (e, r)) (parse_arguments-is_option next args))

-- An argument that no rule takes refuses the whole command line, wherever it stands.
pub parse_cli_options-is_option :
    (argv : List Bytes) (o : CliOptions)
    → parse_cli_options argv default_options ≡ ok o
    → All (λ arg. is_option rules arg ≡ true) argv
unfolding parse_cli_options
parse_cli_options-is_option argv o h =
    Holds-ok (λ _. All (λ arg. is_option rules arg ≡ true) argv) h
      (Holds->>= _ _ (parse_arguments default_options argv) apply_mode
        (parse_arguments-is_option default_options argv)
        (λ o r. Result-Holds (apply_mode o) (λ _ _. r)))
