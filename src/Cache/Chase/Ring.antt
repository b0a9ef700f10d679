-- ===== src/Cache/Chase/Ring.antt =====
-- common/cache/cache_curve.cpp: the ring that measure_pointer_chase fills its buffer with.
use mathlib.Core.List.{Perm}
use native.Mathlib.Nat.{div-mul-le_self, div-le_self, mul-le-mul_left, mul_assoc}
use cpufb.Base.{
  ℕ, suc, ◌+◌, ◌-◌, ◌*◌, ◌/◌, ◌^◌, ◌≡◌, ◌⊎◌, inl, inr, subst, ◌≤◌, ◌<◌, sym, ap, ◌∙◌, List, ◌∷◌,
  Option, some, max, arith, length,
}
use cpufb.Cache.Ring.{build_ring_order}
use cpufb.Cache.Cycle.{build_ring_order-Perm}
use cpufb.Cache.Chase.{
  Buffer, slots_for, stride_of, lines_of, words_of, fill_slots, fill_ring, visits, chase, node,
}
use cpufb.Cache.Chase.Links.{link_to, times, visits-link_to}
use cpufb.Cache.Chase.Counts.{total, node-eq, total-le, total-node}
use cpufb.Cache.Chase.Slots.{fill_slots-Filled}

max-cases : (a b : ℕ) → (max a b ≡ a) ⊎ (max a b ≡ b)
max-cases a b = ground arith

product-max : (a b c : ℕ) {bound : ℕ} → a * c ≤ bound → b * c ≤ bound → max a b * c ≤ bound
product-max a b c {bound} ha hb = elim (max-cases a b) [ inl e ↦ rw e ha | inr e ↦ rw e hb ]

-- The sizes that the code computes.
sizes :
    (working_set line_size : ℕ)
    → working_set ≤ 2 ^ 33
    → line_size ≤ 2 ^ 30
    → (lines_of working_set line_size * words_of line_size ≤ 2 ^ 31)
      × (0 < lines_of working_set line_size)
      × (lines_of working_set line_size < 2 ^ 62)
      × (0 < slots_for (words_of line_size))
      × (slots_for (words_of line_size) ≤ words_of line_size)
unfolding lines_of words_of slots_for stride_of
sizes working_set line_size hw hl =
    let stride = max 4 line_size in
    let words = stride / 4 in
    let lines = working_set / stride in
    let below : lines ≤ working_set = div-le_self working_set stride in
    let scaled : lines * (words * 4) ≤ lines * stride = mul-le-mul_left lines (omega arith) in
    let covered : lines * stride ≤ working_set = div-mul-le_self working_set stride in
    let regroup : lines * (words * 4) ≡ lines * words * 4 = sym (mul_assoc lines words 4) in
    let fits : lines * words ≤ 2 ^ 31 = omega (arith, scaled, covered, regroup, hw) in
    let shortest : 2 * words ≤ 2 ^ 31 = omega (arith, hl) in
    (
      product-max 2 lines words shortest fits,
      omega arith,
      omega (arith, below, hw),
      omega arith,
      omega arith,
    )

-- A filled buffer in which `slots * lines` loads from word 0 on lead back to word 0, and read every
-- one of the first `slots` words of every line once.
pub record IsRing (lines words slots : ℕ) (filled : Option Buffer) : Type 0 where
  pub ring : Buffer
  pub fills : filled ≡ some ring
  pub closes : chase (slots * lines) ring 0 ≡ 0
  pub once :
      (slot line : ℕ)
      → slot < slots
      → line < lines
      → times (line * words + slot) (visits (slots * lines) ring 0) ≡ 1

-- A buffer that is linked along such a list.
linked-IsRing :
    (lines words slots : ℕ) (behind : List ℕ) (buffer : Buffer) (filled : Option Buffer)
    → lines * words ≤ 2 ^ 31
    → slots ≤ words
    → filled ≡ some (link_to (0 ∷ behind) 0 buffer)
    → ((v : ℕ) → times v (0 ∷ behind) ≡ total words lines v 0 slots)
    → length (0 ∷ behind) ≡ slots * lines
    → IsRing lines words slots filled
linked-IsRing lines words slots behind buffer filled fits few_slots fills counts long =
    let ring = link_to (0 ∷ behind) 0 buffer in
    let (visited, ends) =
      visits-link_to 0 behind 0 buffer
        (λ v. omega (arith, counts v, total-le words lines v slots fits few_slots)) in
    record {
      ring = ring;
      fills = fills;
      closes = ap (λ k. chase k ring 0) (sym long) ∙ ends;
      once = λ slot line hs hl.
          ap (times (line * words + slot)) (ap (λ k. visits k ring 0) (sym long) ∙ visited)
          ∙ counts (line * words + slot)
          ∙ total-node words lines slot line slots fits few_slots hs hl;
    }

module _ {ℓ} {R : Type ℓ} (shuffle : R → List ℕ → R × List ℕ) (generator : ℕ → R)
    (permutes : (random : R) (xs : List ℕ) → Perm (shuffle random xs).1 xs) where
  slots-IsRing :
      (lines words more group_lines seed : ℕ) (buffer : Buffer)
      → lines * words ≤ 2 ^ 31
      → 0 < lines
      → lines < 2 ^ 62
      → suc more ≤ words
      → IsRing lines words (suc more) (
          fill_slots shuffle generator lines group_lines seed words
            (suc more)
            (suc more)
            0
            (build_ring_order shuffle lines group_lines (generator seed))
            buffer)
  slots-IsRing lines words more group_lines seed buffer fits some_lines few_lines few_slots =
      let (rest, order, perm) =
        build_ring_order-Perm shuffle permutes lines group_lines (generator seed) some_lines
          few_lines in
      let filled =
        fill_slots-Filled shuffle generator permutes lines group_lines seed words (suc more)
          some_lines few_lines more 0 rest buffer (omega arith) perm in
      let origin : node words 0 0 ≡ 0 =
        node-eq words lines 0 (omega (arith, few_slots)) fits 0 some_lines ∙ omega arith in
      linked-IsRing lines words (suc more) filled.behind buffer _ fits few_slots
        (rw order (filled.fills ∙ ap (λ o. some (link_to (o ∷ filled.behind) o buffer)) origin))
        (λ v. ap (λ o. times v (o ∷ filled.behind)) (sym origin) ∙ filled.counts v) filled.long

  -- For any working set of at most 8 GiB and any line of at most 1 GiB, and with a shuffle that
  -- permutes, measure_pointer_chase fills the buffer without a read out of bounds; from word 0 on, as
  -- many dependent loads as there are links lead back to word 0, and they read each of the words of
  -- all the lines that carry links exactly once.
  pub fill_ring-IsRing :
      (working_set_bytes line_size group_lines seed : ℕ) (buffer : Buffer)
      → working_set_bytes ≤ 2 ^ 33
      → line_size ≤ 2 ^ 30
      → IsRing
          (lines_of working_set_bytes line_size)
          (words_of line_size)
          (slots_for (words_of line_size))
          (fill_ring shuffle generator working_set_bytes line_size group_lines seed buffer)
  unfolding fill_ring
  fill_ring-IsRing working_set_bytes line_size group_lines seed buffer hw hl =
      let lines = lines_of working_set_bytes line_size in
      let words = words_of line_size in
      let slots = slots_for words in
      let (fits, some_lines, few_lines, some_slots, few_slots) =
        sizes working_set_bytes line_size hw hl in
      let whole : suc (slots - 1) ≡ slots = omega (arith, some_slots) in
      subst
        (λ k. IsRing lines words k (
          fill_slots shuffle generator lines group_lines seed words k k 0
            (build_ring_order shuffle lines group_lines (generator seed)) buffer))
        whole
        (slots-IsRing lines words (slots - 1) group_lines seed buffer fits some_lines few_lines
          (omega (arith, some_slots, few_slots)))
