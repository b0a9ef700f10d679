-- ===== src/Cache/Chase/Counts.antt =====
-- common/cache/cache_curve.cpp: how often a node stands in the lists of the nodes of the slots.
use mathlib.Core.List.{Perm, Permᴰ}
use mathlib.Core.Logic.{∥∥₁_elim}
use native.Mathlib.Nat.{
  ℕ_set, add_comm, div-eq_of_lt, mul-le-mul_right, div-add-mod', add-mul-div_right,
  add-mul-mod_self_right, mod-eq_of_lt,
}
use cpufb.Base.{
  ℕ, zero, suc, ◌+◌, ◌*◌, ◌/◌, ◌%◌, ◌^◌, ◌≡◌, ◌≤◌, ◌<◌, refl, sym, ap, ◌∙◌, List, [], ◌∷◌, map,
  ◌==◌, if◌then◌else◌, arith, length, ==→eq, ==_refl, Bool, ltb, true, false,
}
use cpufb.Cache.Ring.{iota}
use cpufb.Cache.Chase.{node}
use cpufb.Cache.Chase.Links.{times}

length-Permᴰ : {xs ys : List ℕ} → Permᴰ xs ys → length xs ≡ length ys
length-Permᴰ Permᴰ.nil = refl
length-Permᴰ (Permᴰ.cons e d) = ap suc (length-Permᴰ d)
length-Permᴰ (Permᴰ.swap e f) = refl
length-Permᴰ (Permᴰ.trans d₁ d₂) = length-Permᴰ d₁ ∙ length-Permᴰ d₂

pub length-Perm : {xs ys : List ℕ} → Perm xs ys → length xs ≡ length ys
length-Perm {xs} {ys} p = ∥∥₁_elim p (ℕ_set (length xs) (length ys)) length-Permᴰ

times-Permᴰ :
    (f : ℕ → ℕ) (v : ℕ) {xs ys : List ℕ} → Permᴰ xs ys → times v (map f xs) ≡ times v (map f ys)
unfolding times
times-Permᴰ f v Permᴰ.nil = refl
times-Permᴰ f v (Permᴰ.cons e d) = rw (e, times-Permᴰ f v d) refl
times-Permᴰ f v (Permᴰ.swap e f') = rw (e, f') (omega arith)
times-Permᴰ f v (Permᴰ.trans d₁ d₂) = times-Permᴰ f v d₁ ∙ times-Permᴰ f v d₂

pub times-Perm :
    (f : ℕ → ℕ) (v : ℕ) {xs ys : List ℕ} → Perm xs ys → times v (map f xs) ≡ times v (map f ys)
times-Perm f v {xs} {ys} p =
    ∥∥₁_elim p (ℕ_set (times v (map f xs)) (times v (map f ys))) (λ d. times-Permᴰ f v d)

pub length-iota : (first n : ℕ) → length (iota first n) ≡ n
unfolding iota
length-iota first zero = refl
length-iota first (suc n) = ap suc (length-iota (suc first) n)

pub length-map : (f : ℕ → ℕ) (xs : List ℕ) → length (map f xs) ≡ length xs
length-map f [] = refl
length-map f (x ∷ xs) = ap suc (length-map f xs)

-- The nodes of the slots `slot`, .., `slot + rounds - 1`, in all.
unfoldable pub total : ℕ → ℕ → ℕ → ℕ → ℕ → ℕ
unfolding times
total words n v slot zero = 0
total words n v slot (suc rounds) =
    times v (map (node words slot) (iota 0 n)) + total words n v (slot + 1) rounds

-- One more line, where `a` and `b` are the line and the slot of a word.
one-more :
    (same : Bool) (a b first slot m t : ℕ)
    → (same ≡ true → (a ≡ first) × (b ≡ slot))
    → (a ≡ first → b ≡ slot → same ≡ true)
    → t ≡ (
        if b == slot
        then (if ltb a (suc first) then 0 else if ltb a (suc first + m) then 1 else 0)
        else 0)
    → (if same then 1 else 0) + t ≡ (
        if b == slot
        then (if ltb a first then 0 else if ltb a (first + suc m) then 1 else 0)
        else 0)
one-more true a b first slot m t only back e = let y = only refl in ground (arith, y.0, y.1, e)
one-more false a b first slot m t only back e = ground (arith, e, back)

module _ (words n : ℕ) (slot : ℕ) (low : slot < words) (fits : n * words ≤ 2 ^ 31) where
  pub node-eq : (line : ℕ) → line < n → node words slot line ≡ line * words + slot
  unfolding node
  node-eq line h =
      let above : suc line * words ≤ n * words = mul-le-mul_right words h in
      omega (arith, above, fits, low)

  node-line : (line : ℕ) → (line * words + slot) / words ≡ line
  node-line line =
      ap (◌/ words) (add_comm (line * words) slot)
      ∙ add-mul-div_right slot line (omega (arith, low))
      ∙ ap (◌+ line) (div-eq_of_lt low)
      ∙ omega arith

  node-slot : (line : ℕ) → (line * words + slot) % words ≡ slot
  node-slot line =
      ap (◌% words) (add_comm (line * words) slot)
      ∙ add-mul-mod_self_right slot line words
      ∙ mod-eq_of_lt low

  times-slot :
      (v first m : ℕ)
      → first + m ≤ n
      → times v (map (node words slot) (iota first m)) ≡ (
          if v % words == slot
          then (if ltb (v / words) first then 0 else if ltb (v / words) (first + m) then 1 else 0)
          else 0)
  unfolding times iota
  times-slot v first zero h = ground arith
  times-slot v first (suc m) h =
      let e = node-eq first (omega (arith, h)) in
      one-more (v == node words slot first) (v / words) (v % words) first slot m
        (times v (map (node words slot) (iota (suc first) m)))
        (λ y.
          let f = ==→eq v (node words slot first) y ∙ e in
          (ap (◌/ words) f ∙ node-line first, ap (◌% words) f ∙ node-slot first))
        (λ q r.
          let same : v ≡ node words slot first =
            sym (div-add-mod' v words)
            ∙ ap (λ k. k * words + v % words) q
            ∙ ap (first * words +◌) r
            ∙ sym e in
          rw same (==_refl (node words slot first)))
        (times-slot v (suc first) m (omega (arith, h)))

-- A word below `words * n` stands in one slot's list, and once.
pub total-once :
    (words n v slot rounds : ℕ)
    → n * words ≤ 2 ^ 31
    → slot + rounds ≤ words
    → total words n v slot rounds ≡ (
        if ltb (v / words) n
        then (if ltb (v % words) slot then 0 else if ltb (v % words) (slot + rounds) then 1 else 0)
        else 0)
unfolding total
total-once words n v slot zero fits h = ground arith
total-once words n v slot (suc rounds) fits h =
    let here = times-slot words n slot (omega (arith, h)) fits v 0 n (omega arith) in
    let rest = total-once words n v (slot + 1) rounds fits (omega (arith, h)) in
    ground (arith, here, rest)

pub total-le :
    (words n v rounds : ℕ) → n * words ≤ 2 ^ 31 → rounds ≤ words → total words n v 0 rounds ≤ 1
total-le words n v rounds fits h =
    let e = total-once words n v 0 rounds fits (omega (arith, h)) in ground (arith, e)

pub total-node :
    (words n slot line rounds : ℕ)
    → n * words ≤ 2 ^ 31
    → rounds ≤ words
    → slot < rounds
    → line < n
    → total words n (line * words + slot) 0 rounds ≡ 1
total-node words n slot line rounds fits h hs hl =
    let low : slot < words = omega (arith, h, hs) in
    let e = total-once words n (line * words + slot) 0 rounds fits (omega (arith, h)) in
    let d = node-line words n slot low fits line in
    let m = node-slot words n slot low fits line in ground (arith, e, d, m, hs, hl)
