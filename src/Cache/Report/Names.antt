-- ===== src/Cache/Report/Names.antt =====
-- common/cache/cache_report.cpp: the names and the capacities of levels.
use cpufb.Base.{
  ℕ, ◌+◌, ◌*◌, ◌^◌, ◌≡◌, ◌≢◌, ◌<◌, sym, ap, ◌∙◌, List, [], ◌∷◌, ◌++◌, false, Bytes, codes, arith,
  Bool-cases, inl, inr,
}
use cpufb.Text.Bytes.{bytes_eq, bytes_eq→eq}
use cpufb.Text.Decimal.{to_string, value, to_string-Spells}
use cpufb.Cache.Curve.{CacheLevelEstimate}

-- A whole number of KiB, not none, that fits an `int`.
abbrev pub Whole : ℕ → Type 0
Whole bytes = (kib : ℕ) × (bytes ≡ kib * 1024) × (0 < kib) × (kib < 2 ^ 31)

-- Levels behind `count` others, by their names, with capacities that are whole.
abbrev pub Named {ℓ} : {F : Type ℓ} → ℕ → List (CacheLevelEstimate F) → Type 0
Named count [] = Unit
Named count (l ∷ ls) =
    (l.level ≡ codes "L" ++ to_string (count + 1)) × Whole l.capacity_bytes × Named (count + 1) ls

digits-differ : (m n : ℕ) → to_string m ≡ to_string n → m ≡ n
unfolding value
digits-differ m n e = sym (to_string-Spells m).0 ∙ ap (value 0) e ∙ (to_string-Spells n).0

tail : Bytes → Bytes
tail [] = []
tail (c ∷ s) = s

other_name :
    (name : Bytes) (m n : ℕ)
    → name ≡ codes "L" ++ to_string m
    → m ≢ n
    → bytes_eq name (codes "L" ++ to_string n) ≡ false
unfolding tail
other_name name m n e differ = elim (Bool-cases (bytes_eq name (codes "L" ++ to_string n))) [
  | inr a ↦ a
  | inl a ↦ absurd (differ (digits-differ m n (ap tail (sym e ∙ bytes_eq→eq name _ a))))
]

-- A third level or a deeper one is named neither L1 nor L2.
pub deep_name :
    (name : Bytes) (count : ℕ)
    → name ≡ codes "L" ++ to_string (count + 3)
    → (bytes_eq name (codes "L1") ≡ false) × (bytes_eq name (codes "L2") ≡ false)
unfolding to_string
deep_name name count e = (
  other_name name (count + 3) 1 e (λ h. omega (arith, h)),
  other_name name (count + 3) 2 e (λ h. omega (arith, h)),
)
