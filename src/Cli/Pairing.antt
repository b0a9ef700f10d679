-- ===== src/Cli/Pairing.antt =====
-- common/cli.cpp: the rows of the catalog when two of them are paired.
use cpufb.Base.{
  ◌⊎◌, ℕ, ◌≡◌, refl, ◌∙◌, ap, List, Option, none, some, Bool, true, false, if◌then◌else◌, ◌==◌,
  ==→eq, get_elem?, is_some, arith, inl, inr, Bool-cases,
}
use cpufb.Cli.Options.{BenchmarkInfo}
use cpufb.Cli.Catalog.{set_pair, is_compute, is_latency_of}
use cpufb.Cli.Pairs.{with_pair, hit, get_elem?-set_pair}

-- What a row, if there is one, is paired with, whether it is a latency row, and whether another is
-- its latency row.
unfoldable pub pair_of : Option BenchmarkInfo → Option ℕ
pair_of none = none
pair_of (some item) = item.pair_index

unfoldable pub is_latency_row : Option BenchmarkInfo → Bool
is_latency_row none = false
is_latency_row (some item) = item.is_latency

unfoldable pub is_latency_row_of : Option BenchmarkInfo → Option BenchmarkInfo → Bool
is_latency_row_of none row = false
is_latency_row_of (some benchmark) row = hit benchmark row

module _ (p : Option ℕ) where
  is_latency_row-with_pair :
      (row : Option BenchmarkInfo) → is_latency_row (with_pair p row) ≡ is_latency_row row
  unfolding is_latency_row with_pair
  is_latency_row-with_pair none = refl
  is_latency_row-with_pair (some item) = refl

  first-with_pair :
      (row other : Option BenchmarkInfo)
      → is_latency_row_of (with_pair p row) other ≡ is_latency_row_of row other
  unfolding is_latency_row_of with_pair is_latency_of is_compute
  first-with_pair none other = refl
  first-with_pair (some item) none = refl
  first-with_pair (some item) (some _) = refl

  second-with_pair :
      (row other : Option BenchmarkInfo)
      → is_latency_row_of row (with_pair p other) ≡ is_latency_row_of row other
  unfolding is_latency_row_of with_pair is_latency_of is_compute
  second-with_pair none other = refl
  second-with_pair (some item) none = refl
  second-with_pair (some item) (some _) = refl

  pair_of-with_pair :
      (row : Option BenchmarkInfo) → is_some row ≡ true → pair_of (with_pair p row) ≡ p
  unfolding pair_of with_pair
  pair_of-with_pair none h = cc
  pair_of-with_pair (some item) h = refl

-- The rows of a catalog by their indices.
abbrev pub pair_index : List BenchmarkInfo → ℕ → Option ℕ
pair_index catalog i = pair_of (get_elem? catalog i)

abbrev pub is_latency : List BenchmarkInfo → ℕ → Bool
is_latency catalog i = is_latency_row (get_elem? catalog i)

abbrev pub measures : List BenchmarkInfo → ℕ → ℕ → Bool
measures catalog i j = is_latency_row_of (get_elem? catalog i) (get_elem? catalog j)

module _ (k l : ℕ) (catalog : List BenchmarkInfo) where
  abbrev pub paired : List BenchmarkInfo
  paired = set_pair l (some k) (set_pair k (some l) catalog)

  get_elem?-paired :
      (i : ℕ)
      → get_elem? paired i ≡ (
          if l == i
          then with_pair
              (some k)
              (if k == i then with_pair (some l) (get_elem? catalog i) else get_elem? catalog i)
          else if k == i
          then with_pair (some l) (get_elem? catalog i)
          else get_elem? catalog i)
  get_elem?-paired i = ground (
    arith,
    get_elem?-set_pair l i (some k) (set_pair k (some l) catalog),
    get_elem?-set_pair k i (some l) catalog,
  )

  -- A row keeps all but its pair.
  Keeps : ℕ → Type 0
  Keeps i =
      (get_elem? paired i ≡ get_elem? catalog i)
      ⊎ (p : Option ℕ) × (get_elem? paired i ≡ with_pair p (get_elem? catalog i))

  with_pair_twice :
      (p q : Option ℕ) (row : Option BenchmarkInfo)
      → with_pair p (with_pair q row) ≡ with_pair p row
  unfolding with_pair
  with_pair_twice p q none = refl
  with_pair_twice p q (some item) = refl

  paired-Keeps : (i : ℕ) → Keeps i
  unfolding Keeps
  paired-Keeps i = elim (Bool-cases (l == i)) [
    | inl e ↦ inr (
      some k,
      ground (arith, get_elem?-paired i, with_pair_twice (some k) (some l) (get_elem? catalog i)),
    )
    | inr e ↦ elim (Bool-cases (k == i)) [
      | inl f ↦ inr (some l, ground (arith, get_elem?-paired i))
      | inr f ↦ inl (ground (arith, get_elem?-paired i))
    ]
  ]

  pub is_latency-paired : (i : ℕ) → is_latency paired i ≡ is_latency catalog i
  unfolding Keeps
  is_latency-paired i = elim (paired-Keeps i) [
    | inl e ↦ ap is_latency_row e
    | inr r ↦ ap is_latency_row (r.1) ∙ is_latency_row-with_pair r.0 (get_elem? catalog i)
  ]

  first-paired :
      (i : ℕ) (row : Option BenchmarkInfo)
      → is_latency_row_of (get_elem? paired i) row ≡ is_latency_row_of (get_elem? catalog i) row
  unfolding Keeps
  first-paired i row = elim (paired-Keeps i) [
    | inl e ↦ ap (λ x. is_latency_row_of x row) e
    | inr r ↦
        ap (λ x. is_latency_row_of x row) (r.1) ∙ first-with_pair r.0 (get_elem? catalog i) row
  ]

  second-paired :
      (j : ℕ) (row : Option BenchmarkInfo)
      → is_latency_row_of row (get_elem? paired j) ≡ is_latency_row_of row (get_elem? catalog j)
  unfolding Keeps
  second-paired j row = elim (paired-Keeps j) [
    | inl e ↦ ap (is_latency_row_of row) e
    | inr r ↦ ap (is_latency_row_of row) (r.1) ∙ second-with_pair r.0 row (get_elem? catalog j)
  ]

  pub measures-paired : (i j : ℕ) → measures paired i j ≡ measures catalog i j
  measures-paired i j = first-paired i (get_elem? paired j) ∙ second-paired j (get_elem? catalog i)

  pub pair_index-paired :
      (i : ℕ)
      → is_some (get_elem? catalog k) ≡ true
      → is_some (get_elem? catalog l) ≡ true
      → pair_index paired i
        ≡ (if l == i then some k else if k == i then some l else pair_index catalog i)
  pair_index-paired i hk hl = elim (Bool-cases (l == i)) [
    | inl e ↦ ground (
      arith,
      get_elem?-paired i,
      with_pair_twice (some k) (some l) (get_elem? catalog i),
      pair_of-with_pair (some k) (get_elem? catalog i),
      ==→eq l i e,
    )
    | inr e ↦ elim (Bool-cases (k == i)) [
      | inl f ↦
          ground (
            arith,
            get_elem?-paired i,
            pair_of-with_pair (some l) (get_elem? catalog i),
            ==→eq k i f,
          )
      | inr f ↦ ground (arith, get_elem?-paired i)
    ]
  ]
