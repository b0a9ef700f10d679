-- ===== src/Doubles.antt =====
-- `double`, as common/cache uses it.
use cpufb.Base.{ℕ, Bool, ◌||◌, Bytes}

-- The order, the operations, the double of an integer, of the difference of two, and of digits with a
-- number of decimal places, and what a stream prints with a fixed number of digits.
pub record Doubles {ℓ} (F : Type ℓ) : Type ℓ where
  pub less : F → F → Bool
  pub equal : F → F → Bool
  pub plus : F → F → F
  pub times : F → F → F
  pub divide : F → F → F
  pub literal : ℕ → F
  pub difference : ℕ → ℕ → F
  pub decimal : ℕ → ℕ → F
  pub is_finite : F → Bool
  pub fixed : ℕ → F → Bytes

module _ {ℓ} {F : Type ℓ} (fl : Doubles F) where
  abbrev pub at_most : F → F → Bool
  at_most a b = fl.less a b || fl.equal a b
