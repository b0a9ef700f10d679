-- ===== src/Cache/Ring.antt =====
-- common/cache/cache_curve.cpp: build_ring_order, the order in which a pointer chase visits the lines of
-- a buffer. The generator and `std::shuffle` are arguments: a shuffle takes and returns the state of
-- the generator.
use cpufb.Base.{
  ℕ, zero, suc, ◌+◌, ◌-◌, ◌*◌, ◌/◌, List, [], ◌∷◌, ◌++◌, leb, ◌==◌, ◌||◌, if◌then◌else◌, min, u64,
}

-- `n` numbers from `first` on: `std::iota`, and the loop over the lines of a group.
unfoldable pub iota : ℕ → ℕ → List ℕ
iota first zero = []
iota first (suc n) = first ∷ iota (suc first) n

-- `std::rotate` to the first 0; `front` is what stands before. Without a 0 nothing is rotated.
unfoldable pub rotate : List ℕ → List ℕ → List ℕ
rotate front [] = front
rotate front (line ∷ lines) =
    let rest = rotate (front ++ line ∷ []) lines in
    if line == 0 then (line ∷ lines) ++ front else rest

-- The size of a group, where 0 and a size of all the lines make one group.
unfoldable pub group_size : ℕ → ℕ → ℕ
group_size line_count group_lines =
    if group_lines == 0 || leb line_count group_lines then line_count else group_lines

-- The lines of a group, before they are shuffled.
unfoldable pub group_of : ℕ → ℕ → ℕ → List ℕ
unfolding iota
group_of line_count size group =
    let begin = u64 (group * size) in
    let end = min line_count (u64 (begin + size)) in iota begin (end - begin)

module _ {ℓ} {R : Type ℓ} (shuffle : R → List ℕ → R × List ℕ) where
  -- The loop over the groups.
  unfoldable pub append_groups : ℕ → ℕ → R → List ℕ → List ℕ → List ℕ
  unfolding group_of
  append_groups line_count size random order [] = order
  append_groups line_count size random order (group ∷ groups) =
      let shuffled = shuffle random (group_of line_count size group) in
      append_groups line_count size shuffled.0 (order ++ shuffled.1) groups

  -- `random` is the generator behind its seed.
  unfoldable pub build_ring_order : ℕ → ℕ → R → List ℕ
  unfolding append_groups group_size rotate
  build_ring_order line_count group_lines random =
      let size = group_size line_count group_lines in
      let group_count = u64 (line_count + size - 1) / size in
      let groups = shuffle random (iota 0 group_count) in
      rotate [] (append_groups line_count size groups.0 [] groups.1)
