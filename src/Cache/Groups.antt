-- ===== src/Cache/Groups.antt =====
-- common/cache/cache_curve.cpp: the lines of the groups of build_ring_order.
use mathlib.Core.List.{Perm, Perm-prop, perm_append_comm, Permᴰ}
use mathlib.Core.List.Perm
use mathlib.Core.Logic.{∥∥₁_elim}
use native.Mathlib.Nat.{div-add-mod', mod-lt}
use cpufb.Base.{
  ℕ, zero, suc, ◌+◌, ◌-◌, ◌*◌, ◌/◌, ◌^◌, ◌≡◌, ◌≤◌, ◌<◌, refl, sym, ap, ◌∙◌, subst, List, [], ◌∷◌,
  ◌++◌, leb, ◌==◌, min, u64, arith, append-nil, append_assoc, Bool-cases, inl, inr,
}
use cpufb.Cache.Ring.{iota, rotate, group_size, group_of}

pub rotate-Perm : (front lines : List ℕ) → Perm (rotate front lines) (front ++ lines)
unfolding rotate
rotate-Perm front [] = subst (λ l. Perm front l) (sym (append-nil front)) (Perm.refl front)
rotate-Perm front (line ∷ lines) = elim (Bool-cases (line == 0)) [
  | inl e ↦ rw e (perm_append_comm (line ∷ lines) front)
  | inr e ↦ rw e (
      subst (λ l. Perm (rotate (front ++ line ∷ []) lines) l) (append_assoc front (line ∷ []) lines)
        (rotate-Perm (front ++ line ∷ []) lines))
]

-- The lines of all the groups, in their order.
unfoldable pub all_lines : ℕ → ℕ → List ℕ → List ℕ
all_lines n size [] = []
all_lines n size (group ∷ groups) = group_of n size group ++ all_lines n size groups

swapped : (xs ys zs : List ℕ) → Perm (xs ++ (ys ++ zs)) (ys ++ (xs ++ zs))
swapped xs ys zs =
    subst (λ l. Perm l (ys ++ (xs ++ zs))) (append_assoc xs ys zs)
      (subst (λ l. Perm ((xs ++ ys) ++ zs) l) (append_assoc ys xs zs)
        (Perm.append_right zs (perm_append_comm xs ys)))

all_lines-Permᴰ :
    (n size : ℕ) {gs hs : List ℕ} → Permᴰ gs hs → Perm (all_lines n size gs) (all_lines n size hs)
unfolding all_lines
all_lines-Permᴰ n size Permᴰ.nil = Perm.refl []
all_lines-Permᴰ n size (Permᴰ.cons {a = a} {b = b} {l₂ = l₂} e d) =
    rw e (Perm.append_left (group_of n size b) (all_lines-Permᴰ n size d))
all_lines-Permᴰ n size (Permᴰ.swap {a' = c} {b' = d} {l = l} e f) =
    rw (e, f) (swapped (group_of n size d) (group_of n size c) (all_lines n size l))
all_lines-Permᴰ n size (Permᴰ.trans d₁ d₂) =
    Perm.trans (all_lines-Permᴰ n size d₁) (all_lines-Permᴰ n size d₂)

pub all_lines-Perm :
    (n size : ℕ) {gs hs : List ℕ} → Perm gs hs → Perm (all_lines n size gs) (all_lines n size hs)
all_lines-Perm n size p = ∥∥₁_elim p Perm-prop (λ d. all_lines-Permᴰ n size d)

iota-append : (first p q : ℕ) → iota first p ++ iota (first + p) q ≡ iota first (p + q)
unfolding iota
iota-append first zero q =
    ap (λ k. iota k q) {x = first + 0} {y = first} (omega arith)
    ∙ ap (iota first) {x = q} {y = 0 + q} (omega arith)
iota-append first (suc p) q =
    ap (first ∷◌) (
      ap (λ k. iota (suc first) p ++ iota k q) {x = first + suc p} {y = suc first + p} (omega arith)
      ∙ iota-append (suc first) p q)
    ∙ ap (iota first) {x = suc (p + q)} {y = suc p + q} (omega arith)

-- The lines from `first` on, as many as there are up to `last` among `n`.
span : ℕ → ℕ → ℕ → List ℕ
span n first last = iota first (min n last - first)

group_of-span :
    (n size k : ℕ)
    → k * size + size < 2 ^ 64
    → group_of n size k ≡ span n (k * size) (k * size + size)
unfolding group_of span
group_of-span n size k h =
    let begin : u64 (k * size) ≡ k * size = omega (arith, h) in
    let end : u64 (k * size + size) ≡ k * size + size = omega (arith, h) in rw (begin, end) refl

span-append : (n a s b : ℕ) → span n a (a + s) ++ span n (a + s) (a + s + b) ≡ span n a (a + s + b)
unfolding span
span-append n a s b = elim (Bool-cases (leb (a + s) n)) [
  | inl e ↦
      ap (λ p. iota a p ++ iota (a + s) (min n (a + s + b) - (a + s))) {x = min n (a + s) - a}
        {y = s} (ground arith)
      ∙ iota-append a s (min n (a + s + b) - (a + s))
      ∙ ap (iota a) (ground arith)
  | inr e ↦
      ap (λ q. iota a (min n (a + s) - a) ++ iota (a + s) q) {x = min n (a + s + b) - (a + s)}
        {y = 0} (ground arith)
      ∙ ap (λ l. iota a (min n (a + s) - a) ++ l) {x = iota (a + s) 0} {y = []}
          (unfold iota in refl)
      ∙ append-nil (iota a (min n (a + s) - a))
      ∙ ap (iota a) (ground arith)
]

all_lines-iota :
    (n size m k : ℕ)
    → k * size + m * size < 2 ^ 64
    → all_lines n size (iota k m) ≡ span n (k * size) (k * size + m * size)
unfolding all_lines iota
all_lines-iota n size zero k h =
    unfold span in
    sym (ap (iota (k * size)) {x = min n (k * size + 0 * size) - k * size} {y = 0} (ground arith))
all_lines-iota n size (suc m) k h =
    let more : suc m * size ≡ size + m * size = ground arith in
    let step : suc k * size ≡ k * size + size = ground arith in
    let here = group_of-span n size k (omega (arith, h, more)) in
    let rest = all_lines-iota n size m (suc k) (omega (arith, h, more, step)) in
    rw (here, rest, step, more)
      (span-append n (k * size) size (m * size) ∙ ap (span n (k * size)) (omega arith))

-- The groups cover the lines.
groups-cover : (n size : ℕ) → 0 < n → 0 < size → n ≤ (n + size - 1) / size * size
groups-cover n size p q = omega (arith, div-add-mod' (n + size - 1) size, mod-lt (n + size - 1) q)

groups-bound : (n size : ℕ) → 0 < n → 0 < size → (n + size - 1) / size * size ≤ n + size
groups-bound n size p q = omega (arith, div-add-mod' (n + size - 1) size)

pub group_size-bounds : (n g : ℕ) → 0 < n → (0 < group_size n g) × (group_size n g ≤ n)
unfolding group_size
group_size-bounds n g p = ground arith

pub groups-span :
    (n size : ℕ)
    → 0 < n
    → n < 2 ^ 62
    → 0 < size
    → size ≤ n
    → all_lines n size (iota 0 (u64 (n + size - 1) / size)) ≡ iota 0 n
groups-span n size p b q h =
    let small : u64 (n + size - 1) ≡ n + size - 1 = omega arith in
    let count = (n + size - 1) / size in
    let cover = groups-cover n size p q in
    let bound = groups-bound n size p q in
    rw small (
      all_lines-iota n size count 0 (omega (arith, bound))
      ∙ ap (λ a. span n a (a + count * size)) {x = 0 * size} {y = 0} (omega arith)
      ∙ unfold span in
        ap (iota 0) {x = min n (0 + count * size) - 0} {y = n} (omega (arith, cover)))
