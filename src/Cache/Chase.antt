-- ===== src/Cache/Chase.antt =====
-- common/cache/cache_curve.cpp: the ring of links that measure_pointer_chase writes into its buffer, and
-- the loads that follow it.
pub mod Links
pub mod Counts
pub mod Slots
pub mod Ring
use cpufb.Base.{
  ℕ, zero, suc, ◌+◌, ◌-◌, ◌*◌, ◌/◌, ◌%◌, ◌^◌, List, [], ◌∷◌, Option, none, some, ltb, ◌==◌,
  if◌then◌else◌, ◌>>=◌, min, max, u64, get_elem?,
}
use cpufb.Cache.Ring.{build_ring_order}

-- The buffer: the words at their indices. The values are those of `int32_t` below 2^31; what is
-- larger, and negative in the code, is kept as its bits.
abbrev pub Buffer : Type 0
Buffer = ℕ → ℕ

unfoldable pub write : Buffer → ℕ → ℕ → Buffer
write buffer word value i = if i == word then value else buffer i

unfoldable pub slots_for : ℕ → ℕ
slots_for stride_words = max 1 (min stride_words 16)

-- Word `slot` of line `line`, cast to `int32_t`.
unfoldable pub node : ℕ → ℕ → ℕ → ℕ
node stride_words slot line = u64 (u64 (line * stride_words) + slot) % 2 ^ 32

-- The loop over the lines of a permutation but the last, from what is left of it. `none` is a read
-- behind its end.
unfoldable pub link_lines : ℕ → ℕ → ℕ → List ℕ → Buffer → Option Buffer
unfolding write node
link_lines words slot zero order buffer = some buffer
link_lines words slot (suc n) (line ∷ next ∷ order) buffer =
    link_lines words slot n (next ∷ order)
      (write buffer (node words slot line) (node words slot next))
link_lines words slot (suc n) order buffer = none

module _ {ℓ} {R : Type ℓ} (shuffle : R → List ℕ → R × List ℕ) (generator : ℕ → R)
    (line_count group_lines seed words slots : ℕ) where
  -- The permutation behind the one of `slot`.
  unfoldable pub order_after : ℕ → List ℕ
  order_after slot =
      build_ring_order shuffle line_count group_lines
        (generator (u64 (seed + u64 (40503 * (slot + 1)))))

  -- The loop over the slots, `rounds` of them from `slot` on.
  unfoldable pub fill_slots : ℕ → ℕ → List ℕ → Buffer → Option Buffer
  unfolding link_lines order_after
  fill_slots zero slot order buffer = some buffer
  fill_slots (suc rounds) slot order buffer =
      let following = if ltb (slot + 1) slots then order_after slot else order in
      (do
        linked ← link_lines words slot (line_count - 1) order buffer
        last ← get_elem? order (line_count - 1)
        first ← get_elem? following 0
        fill_slots rounds (slot + 1) following
            (write linked (node words slot last) (node words ((slot + 1) % slots) first)))

-- The sizes of a chase.
unfoldable pub stride_of : ℕ → ℕ
stride_of line_size = max 4 line_size

unfoldable pub lines_of : ℕ → ℕ → ℕ
unfolding stride_of
lines_of working_set_bytes line_size = max 2 (working_set_bytes / stride_of line_size)

unfoldable pub words_of : ℕ → ℕ
unfolding stride_of
words_of line_size = stride_of line_size / 4

-- The start of measure_pointer_chase: what it writes before its first chase.
unfoldable pub fill_ring {ℓ} :
    {R : Type ℓ} → (R → List ℕ → R × List ℕ) → (ℕ → R) → ℕ → ℕ → ℕ → ℕ → Buffer → Option Buffer
unfolding slots_for fill_slots lines_of words_of
fill_ring shuffle generator working_set_bytes line_size group_lines seed buffer =
    let line_count = lines_of working_set_bytes line_size in
    let words = words_of line_size in
    let slots = slots_for words in
    fill_slots shuffle generator line_count group_lines seed words slots slots 0
      (build_ring_order shuffle line_count group_lines (generator seed)) buffer

-- The loads of a chase: the words that `n` dependent loads read, and the word behind them.
unfoldable pub visits : ℕ → Buffer → ℕ → List ℕ
visits zero buffer word = []
visits (suc n) buffer word = word ∷ visits n buffer (buffer word)

unfoldable pub chase : ℕ → Buffer → ℕ → ℕ
chase zero buffer word = word
chase (suc n) buffer word = chase n buffer (buffer word)
