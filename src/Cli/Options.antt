-- ===== src/Cli/Options.antt =====
-- common/cli.hpp: the data of the command line, and the errors that end its reading.
use cpufb.Base.{ℕ, ◌≡◌, refl, subst, List, [], Option, Bool, false, Bytes}

-- BenchmarkInfo; `pair_index` is `none` for -1.
pub record BenchmarkInfo : Type 0 where
  pub isa : Bytes
  pub instruction : Bytes
  pub metric : Bytes
  pub is_latency : Bool
  pub pair_index : Option ℕ

-- Each set is in ascending order, without repetition.
pub record BenchmarkFilter : Type 0 where
  pub include_isa : List Bytes
  pub exclude_isa : List Bytes
  pub include_test : List Bytes
  pub exclude_test : List Bytes

pub data SaveFormat : Type 0 where
  txt csv : SaveFormat

pub data BenchMode : Type 0 where
  all cache compute : BenchMode

pub record SaveOptions : Type 0 where
  pub enabled : Bool
  pub format_set : Bool
  pub path : Bytes
  pub format : SaveFormat

pub record CliOptions : Type 0 where
  pub thread_pool : List ℕ
  pub idle_time : ℕ
  pub filter : BenchmarkFilter
  pub list_categories : Bool
  pub list_instructions : Bool
  pub sweep_instruction : Bytes
  pub memory_bandwidth : Bool
  pub memory_size_mib : ℕ
  pub memory_repetitions : ℕ
  pub memory_size_set : Bool
  pub memory_repetitions_set : Bool
  pub save : SaveOptions
  pub thread_pool_set : Bool
  pub mode : BenchMode
  pub mode_explicit : Bool
  pub include_test_explicit : Bool
  pub loop_scale : ℕ
  pub bench_limit : ℕ

-- The constructors.
unfoldable pub default_filter : BenchmarkFilter
default_filter = record { include_isa = []; exclude_isa = []; include_test = []; exclude_test = [] }

unfoldable pub default_save : SaveOptions
default_save = record { enabled = false; format_set = false; path = []; format = txt }

unfoldable pub default_options : CliOptions
unfolding default_filter default_save
default_options = record {
  thread_pool = [];
  idle_time = 0;
  filter = default_filter;
  list_categories = false;
  list_instructions = false;
  sweep_instruction = [];
  memory_bandwidth = false;
  memory_size_mib = 0;
  memory_repetitions = 5;
  memory_size_set = false;
  memory_repetitions_set = false;
  save = default_save;
  thread_pool_set = false;
  mode = all;
  mode_explicit = false;
  include_test_explicit = false;
  loop_scale = 1;
  bench_limit = 0;
}

-- The messages on `cerr`, each with the text that it quotes, if it quotes one.
pub data Error : Type 0 where
  bad_thread_pool bad_mode too_many_repetitions : Error
  not_positive not_unsigned : Bytes → Error
  bad_format unknown_category unknown_option : Bytes → Error
  memory_options_alone memory_unsupported memory_with_sweep memory_with_filters : Error
  empty_path : Error
  unavailable_isa : Bytes → Error

-- `true` with the values that the function wrote, or `false` with its message.
pub data Result {ℓ} (A : Type ℓ) : Type ℓ where
  ok : A → Result A
  err : Error → Result A

infixl 5 ◌>>=◌
abbrev pub ◌>>=◌ {ℓ κ} : {A : Type ℓ} {B : Type κ} → Result A → (A → Result B) → Result B
ok a >>= f = f a
err e >>= f = err e

-- A predicate on the values of a result that is no error.
abbrev pub Holds {ℓ κ} : {A : Type ℓ} → (A → Type κ) → Result A → Type κ
Holds P (ok a) = P a
Holds P (err e) = Unit

-- A chain keeps what its parts keep.
pub Holds->>= {ℓ κ ν μ} :
    {A : Type ℓ} {B : Type κ} (P : A → Type ν) (Q : B → Type μ) (m : Result A) (f : A → Result B)
    → Holds P m
    → ((a : A) → P a → Holds Q (f a))
    → Holds Q (m >>= f)
Holds->>= P Q (ok a) f h g = g a h
Holds->>= P Q (err e) f h g = tt

pub Result-Holds {ℓ κ} :
    {A : Type ℓ} {P : A → Type κ} (m : Result A) → ((a : A) → m ≡ ok a → P a) → Holds P m
Result-Holds (ok a) h = h a refl
Result-Holds (err e) h = tt

pub Holds-ok {ℓ κ} :
    {A : Type ℓ} (P : A → Type κ) {m : Result A} {a : A} → m ≡ ok a → Holds P m → P a
Holds-ok P e h = subst (Holds P) e h

pub Holds-map {ℓ κ ν} :
    {A : Type ℓ} {P : A → Type κ} {Q : A → Type ν} (m : Result A)
    → ((a : A) → P a → Q a)
    → Holds P m
    → Holds Q m
Holds-map (ok a) f h = f a h
Holds-map (err e) f h = tt
