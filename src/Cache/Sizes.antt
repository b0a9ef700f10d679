-- ===== src/Cache/Sizes.antt =====
-- common/cache/cache_topology.cpp: the texts of cache sizes, read and written.
use cpufb.Base.{
  ℕ, ◌*◌, ◌/◌, ◌%◌, [], ◌∷◌, ◌++◌, Option, none, some, not, ◌||◌, Bytes, codes, ltb, ◌==◌,
  if◌then◌else◌, max_u64, u64,
}
use cpufb.Text.Bytes.{is_empty, to_lower}
use cpufb.Text.Decimal.{to_string}
use cpufb.Text.Strtoull.{strtoull, skip_spaces}
use cpufb.Text.Trim.{trim}

abbrev pub kib : ℕ
kib = 1024

abbrev pub mib : ℕ
mib = 1048576

abbrev pub gib : ℕ
gib = 1073741824

-- `none` is `false`. The blanks behind the number are skipped.
unfoldable pub parse_positive_integer : Bytes → Option ℕ
parse_positive_integer text =
    let cleaned = trim text in
    let n = strtoull cleaned in
    if is_empty cleaned
    then none
    else if n.out_of_range || not n.converted || n.result == 0
    then none
    else if not (is_empty (skip_spaces n.rest))
    then none
    else some n.result

-- The cases of the `switch`.
unfoldable pub multiplier : ℕ → Option ℕ
multiplier c =
    if to_lower c == b'k'
    then some kib
    else if to_lower c == b'm'
    then some mib
    else if to_lower c == b'g'
    then some gib
    else none

unfoldable pub skip_b : Bytes → Bytes
skip_b [] = []
skip_b (c ∷ s) = if to_lower c == b'b' then s else c ∷ s

-- The end of the text, and the test for an overflow.
unfoldable pub scaled : ℕ → ℕ → Bytes → Option ℕ
scaled parsed multiplier end =
    if not (is_empty (skip_spaces end)) || ltb (max_u64 / multiplier) parsed
    then none
    else some (u64 (parsed * multiplier))

unfoldable pub with_unit : ℕ → Bytes → Option ℕ
unfolding multiplier skip_b scaled
with_unit parsed [] = scaled parsed 1 []
with_unit parsed (c ∷ end) = elim (multiplier c) [
  | none ↦ none
  | some m ↦ scaled parsed m (skip_b end)
]

unfoldable pub parse_cache_size : Bytes → Option ℕ
unfolding with_unit
parse_cache_size text =
    let cleaned = trim text in
    let n = strtoull cleaned in
    if is_empty cleaned
    then none
    else if n.out_of_range || not n.converted || n.result == 0
    then none
    else with_unit n.result n.rest

unfoldable pub format_cache_capacity : ℕ → Bytes
format_cache_capacity bytes =
    if bytes == 0
    then codes "0 B"
    else if bytes % gib == 0
    then to_string (bytes / gib) ++ codes " GiB"
    else if bytes % mib == 0
    then to_string (bytes / mib) ++ codes " MiB"
    else if bytes % kib == 0
    then to_string (bytes / kib) ++ codes " KiB"
    else to_string bytes ++ codes " B"

abbrev pub minimum_stream_workset : ℕ
minimum_stream_workset = 256 * mib

abbrev pub cache_multiplier : ℕ
cache_multiplier = 4

-- On `cache.bytes`.
unfoldable pub recommended_stream_workset_bytes : ℕ → ℕ
recommended_stream_workset_bytes bytes =
    let cache_scaled = u64 (bytes * cache_multiplier) in
    if bytes == 0
    then minimum_stream_workset
    else if ltb (max_u64 / cache_multiplier) bytes
    then max_u64
    else if ltb minimum_stream_workset cache_scaled
    then cache_scaled
    else minimum_stream_workset
