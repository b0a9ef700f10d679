-- ===== src/Cache/Chase/Slots.antt =====
-- common/cache/cache_curve.cpp: the loops of measure_pointer_chase as links along one list of nodes.
use mathlib.Core.List.{Perm}
use cpufb.Base.{
  ℕ, zero, suc, ◌+◌, ◌-◌, ◌*◌, ◌%◌, ◌^◌, ◌≡◌, ◌<◌, refl, sym, ap, ◌∙◌, List, [], ◌∷◌, ◌++◌, map,
  some, true, ltb, if◌then◌else◌, u64, arith, length, get_elem?, length-append,
}
use native.Mathlib.Nat.{mod_self, mod-eq_of_lt}
use cpufb.Cache.Ring.{iota}
use cpufb.Cache.Cycle.{build_ring_order-Perm}
use cpufb.Cache.Chase.{Buffer, write, node, link_lines, order_after, fill_slots}
use cpufb.Cache.Chase.Links.{link_to, link_to-append, times, times-append}
use cpufb.Cache.Chase.Counts.{total, times-Perm, length-Perm, length-iota, length-map}

-- The loop over the lines, and the link that follows it.
link_lines-link_to :
    (words slot line : ℕ) (lines : List ℕ) (end : ℕ) (buffer : Buffer)
    → (linked : Buffer) × (last : ℕ) × (link_lines words slot (length lines) (line ∷ lines) buffer
        ≡ some linked)
      × (get_elem? (line ∷ lines) (length lines) ≡ some last)
      × (write linked (node words slot last) end
          ≡ link_to (map (node words slot) (line ∷ lines)) end buffer)
unfolding link_lines link_to
link_lines-link_to words slot line [] end buffer = (buffer, line, refl, refl, refl)
link_lines-link_to words slot line (next ∷ lines) end buffer =
    link_lines-link_to words slot next lines end
      (write buffer (node words slot line) (node words slot next))

module _ {ℓ} {R : Type ℓ} (shuffle : R → List ℕ → R × List ℕ) (generator : ℕ → R)
    (permutes : (random : R) (xs : List ℕ) → Perm (shuffle random xs).1 xs)
    (n group_lines seed words slots : ℕ) (some_lines : 0 < n) (few_lines : n < 2 ^ 62) where
  -- The links of the slots from `slot` on.
  pub record Filled (rounds slot : ℕ) (order : List ℕ) (buffer : Buffer) : Type ℓ where
    pub behind : List ℕ
    pub fills :
        fill_slots shuffle generator n group_lines seed words slots rounds slot order buffer
        ≡ some (link_to (node words slot 0 ∷ behind) (node words 0 0) buffer)
    pub counts : (v : ℕ) → times v (node words slot 0 ∷ behind) ≡ total words n v slot rounds
    pub long : length (node words slot 0 ∷ behind) ≡ rounds * n

  -- One slot, with what its loop and its reads give.
  fill_slots-slot :
      (rounds slot : ℕ) (rest following later : List ℕ) (buffer linked : Buffer) (last next end : ℕ)
      → n - 1 ≡ length rest
      → link_lines words slot (length rest) (0 ∷ rest) buffer ≡ some linked
      → get_elem? (0 ∷ rest) (length rest) ≡ some last
      → (if ltb (slot + 1) slots
          then order_after shuffle generator n group_lines seed words slots slot
          else 0 ∷ rest)
        ≡ following
      → following ≡ 0 ∷ later
      → (slot + 1) % slots ≡ next
      → write linked (node words slot last) (node words next 0)
        ≡ link_to (map (node words slot) (0 ∷ rest)) end buffer
      → fill_slots shuffle generator n group_lines seed words slots
          (suc rounds)
          slot
          (0 ∷ rest)
          buffer
        ≡ fill_slots shuffle generator n group_lines seed words slots rounds
            (slot + 1)
            (0 ∷ later)
            (link_to (map (node words slot) (0 ∷ rest)) end buffer)
  unfolding fill_slots
  fill_slots-slot rounds slot rest following later buffer linked last next end size l g f e m w =
      rw (size, l, g, f, e, m, w) refl

  pub fill_slots-Filled :
      (rounds slot : ℕ) (rest : List ℕ) (buffer : Buffer)
      → slot + suc rounds ≡ slots
      → Perm (0 ∷ rest) (iota 0 n)
      → Filled (suc rounds) slot (0 ∷ rest) buffer
  unfolding fill_slots total order_after
  fill_slots-Filled zero slot rest buffer h perm =
      let (linked, last, l, g, w) = link_lines-link_to words slot 0 rest (node words 0 0) buffer in
      let lines : length (0 ∷ rest) ≡ n = length-Perm perm ∙ length-iota 0 n in
      record {
        behind = map (node words slot) rest;
        fills =
            fill_slots-slot 0 slot rest (0 ∷ rest) rest buffer linked last 0 (node words 0 0)
              (omega (arith, lines)) l g (ground (arith, h)) refl (ap (◌% slots) h ∙ mod_self slots)
              w;
        counts = λ v. times-Perm (node words slot) v perm ∙ omega arith;
        long = omega (arith, lines, length-map (node words slot) rest);
      }
  fill_slots-Filled (suc rounds) slot rest buffer h perm =
      let random = generator (u64 (seed + u64 (40503 * (slot + 1)))) in
      let (later, order, perm') =
        build_ring_order-Perm shuffle permutes n group_lines random some_lines few_lines in
      let below : ltb (slot + 1) slots ≡ true = ground (arith, h) in
      let next = node words (slot + 1) 0 in
      let (linked, last, l, g, w) = link_lines-link_to words slot 0 rest next buffer in
      let lines : length (0 ∷ rest) ≡ n = length-Perm perm ∙ length-iota 0 n in
      let more =
        fill_slots-Filled rounds (slot + 1) later
          (link_to (map (node words slot) (0 ∷ rest)) next buffer) (omega (arith, h)) perm' in
      record {
        behind = map (node words slot) rest ++ next ∷ more.behind;
        fills =
            fill_slots-slot (suc rounds) slot rest _ later buffer linked last (slot + 1) next
              (omega (arith, lines)) l g refl (rw below order) (mod-eq_of_lt (omega (arith, h))) w
            ∙ more.fills
            ∙ ap some
                (sym (link_to-append (map (node words slot) (0 ∷ rest)) next more.behind _ buffer));
        counts = λ v.
            times-append v (map (node words slot) (0 ∷ rest)) (next ∷ more.behind)
            ∙ ap (◌+ times v (next ∷ more.behind)) (times-Perm (node words slot) v perm)
            ∙ ap (times v (map (node words slot) (iota 0 n)) +◌) (more.counts v);
        long = omega (
          arith,
          length-append (map (node words slot) (0 ∷ rest)) (next ∷ more.behind),
          length-map (node words slot) rest,
          lines,
          more.long,
        );
      }
