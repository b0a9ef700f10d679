-- ===== src/Cli/SweepRows.antt =====
-- common/cli.cpp: the rows of run_instruction_sweep.
use cpufb.Base.{
  ℕ, suc, zero, ◌+◌, ◌≤◌, ◌<◌, ◌≡◌, refl, ◌∙◌, ap, sym, List, [], ◌∷◌, ◌++◌, Option, none, some,
  ◌>>=◌, Bytes, if◌then◌else◌, length, take, All, arith, false, ◌==◌, append_assoc, append-nil,
  max_int,
}
use cpufb.Table.{Table}
use cpufb.Table.Layout.{IsValid, add_one_item-IsValid}
use cpufb.Text.Decimal.{to_string}
use cpufb.ThreadPool.Parse.{parse_thread_pool}
use cpufb.Cli.Prefix.{format_thread_pool_prefix, parse_thread_pool-format_thread_pool_prefix}
use cpufb.Cli.Sweep.{
  Floats, SweepSample, format_perf_value, format_ratio_value, format_percent_value, sweep_row,
  sweep_rows,
}

-- What parses as the result of a chain is there.
bound :
    (o : Option Bytes) (xs : List ℕ)
    → (o >>= parse_thread_pool) ≡ some xs
    → (s : Bytes) × (o ≡ some s) × (parse_thread_pool s ≡ some xs)
bound none xs e = ground (arith, e)
bound (some s) xs e = (s, refl, e)

module _ {ℓ} {F : Type ℓ} (fl : Floats F) (threads : List ℕ) (metric : Bytes)
    (samples : ℕ → SweepSample F) where
  -- The row of the first `k` CPUs: their number, their list as a thread pool, the performance of
  -- their sample as a whole and for each core, the gain over the sample of one core, as a whole and
  -- for each core, and two cells more.
  pub record IsRow (k : ℕ) (row : List Bytes) : Type ℓ where
    pub pool : Bytes
    pub speedup : F
    pub ipc : Bytes
    pub latency : Bytes
    pub cells :
        row
        ≡ to_string k
          ∷ pool
          ∷ format_perf_value fl (samples k).performance metric
          ∷ format_perf_value fl (fl.divide (samples k).performance (fl.literal k)) metric
          ∷ format_ratio_value fl speedup
          ∷ format_percent_value fl (fl.divide speedup (fl.literal k))
          ∷ ipc
          ∷ latency
          ∷ []
    pub reads : parse_thread_pool pool ≡ some (take k threads)
    pub gain : speedup ≡ (
        if fl.greater (samples 1).performance (fl.literal 0)
        then fl.divide (samples k).performance (samples 1).performance
        else fl.literal 0)

  -- The rows of a number of CPUs, and of one more each.
  abbrev pub AreRows : ℕ → List (List Bytes) → Type ℓ
  AreRows k [] = Unit
  AreRows k (row ∷ rows) = IsRow k row × AreRows (suc k) rows

  sweep_row-IsRow :
      (k : ℕ) (pool : Bytes)
      → parse_thread_pool pool ≡ some (take k threads)
      → IsRow k (sweep_row fl (samples 1).performance metric (samples k) k pool)
  unfolding sweep_row
  sweep_row-IsRow k pool e = record {
    pool = pool;
    speedup = _;
    ipc = _;
    latency = _;
    cells = refl;
    reads = e;
    gain = refl;
  }

  module _ (measure : List ℕ → Option (SweepSample F))
      (measured : (k : ℕ)
        → 0 < k
        → k ≤ length threads
        → measure (take k threads) ≡ some (samples k))
      (ints : All (λ cpu. cpu ≤ max_int) threads) (few : length threads ≤ 65536) where
    rows_from :
        (rounds cores : ℕ) (baseline : F) (t : Table)
        → 0 < cores
        → cores + rounds ≤ suc (length threads)
        → (if cores == 1 then (samples cores).performance else baseline) ≡ (samples 1).performance
        → IsValid t
        → t.col ≡ 8
        → (u : Table) × (rows : List (List Bytes)) × (sweep_rows fl measure threads metric baseline
              cores rounds t
            ≡ some (some u))
          × (u.contents ≡ t.contents ++ rows)
          × (length rows ≡ rounds)
          × AreRows cores rows
    unfolding sweep_rows
    rows_from zero cores baseline t p h b v c = (t, [], refl, sym (append-nil t.contents), refl, tt)
    rows_from (suc rounds) cores baseline t p h b v c =
        let (pool, e, r) = bound (format_thread_pool_prefix threads cores) _ (
          parse_thread_pool-format_thread_pool_prefix threads cores ints p (omega (arith, h))
            (omega (arith, h, few))) in
        let row = sweep_row fl (samples 1).performance metric (samples cores) cores pool in
        let (next, f, k, d, w) =
          add_one_item-IsValid t row v (unfold sweep_row in omega (arith, c)) in
        let later : (suc cores == 1) ≡ false = ground (arith, p) in
        let (u, rows, g, x, y, z) =
          rows_from rounds (suc cores) (samples 1).performance next (omega arith) (omega (arith, h))
            (rw later refl) w (k ∙ c) in
        (
          u,
          row ∷ rows,
          rw (sweep_rows, measured cores p (omega (arith, h)), b, e, f) g,
          x ∙ ap (λ l. l ++ rows) d ∙ append_assoc t.contents (row ∷ []) rows,
          ap suc y,
          (sweep_row-IsRow cores pool r, z),
        )

    -- For a pool of at most 65536 CPUs, each of them an `int`, a valid table of eight columns, and a
    -- measurement that succeeds on each prefix of the pool that is not empty: the loop of
    -- run_instruction_sweep ends, and appends one row for each number of CPUs from 1 to all of them,
    -- in order. The row has the number, a list that parse_thread_pool reads as these CPUs, and the
    -- performance of their sample, as a whole, for each core, and against the sample of one CPU.
    pub sweep_rows-AreRows :
        (t : Table)
        → IsValid t
        → t.col ≡ 8
        → (u : Table) × (rows : List (List Bytes)) × (sweep_rows fl measure threads metric
              (fl.literal 0)
              1
              (length threads)
              t
            ≡ some (some u))
          × (u.contents ≡ t.contents ++ rows)
          × (length rows ≡ length threads)
          × AreRows 1 rows
    sweep_rows-AreRows t v c =
        rows_from (length threads) 1 (fl.literal 0) t (omega arith) (omega arith) refl v c
