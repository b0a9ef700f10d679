-- ===== src/Table/Narrow.antt =====
-- common/table.cpp: tables of three columns whose texts are short enough to be printed.
use cpufb.Base.{
  ℕ, zero, suc, ◌+◌, ◌*◌, ◌^◌, ◌≤◌, ◌<◌, ◌≡◌, refl, ◌∙◌, subst, if◌then◌else◌, List, [], ◌∷◌, ◌++◌,
  Option, none, some, arith, Bytes, length, All, All-append, inl, inr, Option-cases,
}
use cpufb.Integers.{ℤ, pos, negsuc, to_int-small, int_lt}
use cpufb.Table.{Table, empty, set_column_num, widen, add_one_item, print}
use cpufb.Table.Layout.{IsValid, set_column_num-IsValid, add_one_item-IsValid}
use cpufb.Table.Printed.{Short, Printed, total, print-aligned}

abbrev AtMost : ℤ → Type 0
AtMost (pos w) = w ≤ 2 ^ 29
AtMost (negsuc w) = ⊥

-- Texts whose size plus two is at most 2 ^ 29.
abbrev pub Brief : List Bytes → Type 0
Brief cells = All (λ c. length c + 2 ≤ 2 ^ 29) cells

pub record IsNarrow (t : Table) : Type 0 where
  pub valid : IsValid t
  pub columns : t.col ≡ 3
  pub narrow : All AtMost t.col_widths
  pub brief : All Brief t.contents

-- The result, if there is one.
abbrev Found {ℓ} : {A : Type ℓ} → (A → Type 0) → Option A → Type 0
Found P none = Unit
Found P (some a) = P a

wider-AtMost :
    (w : ℤ) (k : ℕ) → AtMost w → k ≤ 2 ^ 29 → AtMost (if int_lt w (pos k) then pos k else w)
unfolding int_lt
wider-AtMost (pos w) k h b = ground (arith, h, b)
wider-AtMost (negsuc w) k h b = absurd h

widen-AtMost :
    (n : ℕ) (ws : List ℤ) (cells : List Bytes)
    → All AtMost ws
    → Brief cells
    → Found (All AtMost) (widen n ws cells)
unfolding widen
widen-AtMost zero ws cells a b = a
widen-AtMost (suc n) [] cells a b = tt
widen-AtMost (suc n) (w ∷ ws) [] a b = tt
widen-AtMost (suc n) (w ∷ ws) (c ∷ cells) a b =
    let rest = widen-AtMost n ws cells a.1 b.1 in
    elim (Option-cases (widen n ws cells)) [
      | inl e ↦ rw (Found, e) tt
      | inr (vs, e) ↦
          rw (Found, e, to_int-small (length c + 2) (omega (arith, b.0)))
            (wider-AtMost w (length c + 2) a.0 b.0, subst (Found (All AtMost)) e rest)
    ]

add_one_item-AtMost :
    (t : Table) (item : List Bytes)
    → All AtMost t.col_widths
    → Brief item
    → Found (λ u. All AtMost u.col_widths) (add_one_item t item)
unfolding add_one_item
add_one_item-AtMost t item a b =
    let there = widen-AtMost t.col t.col_widths item a b in
    elim (Option-cases (widen t.col t.col_widths item)) [
      | inl e ↦ rw (Found, e) tt
      | inr (ws, e) ↦ rw (Found, e) (subst (Found (All AtMost)) e there)
    ]

-- A row of three brief cells is appended, and the table stays narrow.
pub add_one_item-IsNarrow :
    (t : Table) (item : List Bytes)
    → IsNarrow t
    → 3 ≤ length item
    → Brief item
    → (u : Table) × (add_one_item t item ≡ some u)
      × (u.contents ≡ t.contents ++ item ∷ [])
      × IsNarrow u
add_one_item-IsNarrow t item v h b =
    let (u, e, c, d, w) = add_one_item-IsValid t item v.valid (omega (arith, h, v.columns)) in
    (
      u,
      e,
      d,
      record {
        valid = w;
        columns = c ∙ v.columns;
        narrow =
            subst (Found (λ u. All AtMost u.col_widths)) e (add_one_item-AtMost t item v.narrow b);
        brief = rw d (All-append _ t.contents (item ∷ []) v.brief (b, tt));
      },
    )

pub start-IsNarrow : IsNarrow (set_column_num empty 3)
unfolding set_column_num empty
start-IsNarrow = record {
  valid = set_column_num-IsValid empty 3 refl;
  columns = refl;
  narrow = omega arith;
  brief = tt;
}

pub start-nil : (set_column_num empty 3).contents ≡ []
unfolding set_column_num empty
start-nil = refl

total-AtMost : (ws : List ℤ) → All AtMost ws → total ws ≤ length ws * 2 ^ 29
total-AtMost [] a = omega arith
total-AtMost (pos w ∷ ws) a = omega (arith, a.0, total-AtMost ws a.1)
total-AtMost (negsuc w ∷ ws) a = absurd a.0

Brief-Short : (rows : List (List Bytes)) → All Brief rows → Short rows
Brief-Short [] a = tt
Brief-Short (row ∷ rows) a = (cells row a.0, Brief-Short rows a.1)
  where
    cells : (cs : List Bytes) → Brief cs → All (λ c. length c + 2 < 2 ^ 31) cs
    cells [] b = tt
    cells (c ∷ cs) b = (omega (arith, b.0), cells cs b.1)

-- A narrow table is printed.
pub print-IsNarrow :
    (t : Table)
    → IsNarrow t
    → (lines : List Bytes) × (widths : List ℤ) × (print t ≡ some lines)
      × Printed 3 widths t.contents lines
print-IsNarrow t v =
    let (lines, e, p) =
      print-aligned t v.valid (Brief-Short t.contents v.brief)
        (omega (arith, total-AtMost t.col_widths v.narrow, v.valid.widths, v.columns)) in
    (lines, t.col_widths, e, subst (λ n. Printed n t.col_widths t.contents lines) v.columns p)
