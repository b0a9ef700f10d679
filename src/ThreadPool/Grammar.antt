-- ===== src/ThreadPool/Grammar.antt =====
-- common/sys/thread_pool.cpp: the language that parse_thread_pool accepts, and what a text denotes.
use cpufb.Base.{
  ℕ, zero, suc, ◌+◌, ◌-◌, ◌≤◌, ◌≡◌, ◌≢◌, refl, ap, List, [], ◌∷◌, ◌++◌, Bytes, max_int, length, All,
}
use cpufb.Text.Decimal.{IsDigit, value}
use cpufb.ThreadPool.Parse.{max_entries, cpus_from}

-- The text of a CPU number: one or more digits that spell a value of type `int`.
pub record CpuId (text : Bytes) (n : ℕ) : Type 0 where
  pub digits : All IsDigit text
  pub nonempty : text ≢ []
  pub spells : value 0 text ≡ n
  pub fits : n ≤ max_int

-- The text of an entry: a number, or a range whose right end is not below its left end.
pub data Entry (text : Bytes) (left right : ℕ) : Type 0 where
  single : CpuId text left → right ≡ left → Entry text left right
  range :
      (a b : Bytes)
      → text ≡ a ++ b'-' ∷ b
      → CpuId a left
      → CpuId b right
      → left ≤ right
      → Entry text left right

-- The CPUs of a range, in ascending order.
abbrev pub cpus : ℕ → ℕ → List ℕ
cpus left right = cpus_from left (right - left + 1)

-- What stands behind the opening bracket: entries with commas between them, then the bracket.
pub data Body : Bytes → List ℕ → Type 0 where
  last :
      {text : Bytes} {xs : List ℕ} (e : Bytes) (left right : ℕ)
      → Entry e left right
      → text ≡ e ++ b']' ∷ []
      → xs ≡ cpus left right
      → Body text xs
  more :
      {text : Bytes} {xs : List ℕ} (e rest : Bytes) (left right : ℕ) (ys : List ℕ)
      → Entry e left right
      → Body rest ys
      → text ≡ e ++ b',' ∷ rest
      → xs ≡ cpus left right ++ ys
      → Body text xs

pub record Denotes (text : Bytes) (xs : List ℕ) : Type 0 where
  pub body : Bytes
  pub opens : text ≡ b'[' ∷ body
  pub entries : Body body xs
  pub fits : length xs ≤ max_entries

pub length-cpus_from : (left n : ℕ) → length (cpus_from left n) ≡ n
unfolding cpus_from
length-cpus_from left zero = refl
length-cpus_from left (suc n) = ap suc (length-cpus_from (left + 1) n)
