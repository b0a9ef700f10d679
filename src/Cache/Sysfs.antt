-- ===== src/Cache/Sysfs.antt =====
-- common/cache/cache_topology.cpp: the caches that Linux lists under /sys. The first lines of its files are a
-- function of the path, `none` where a file does not open. `long` and `int` keep their ranges, and an
-- overflow of `int` in count_cpu_list is `none`.
pub mod Counted
pub mod Tests
use cpufb.Base.{
  ℕ, zero, suc, ◌+◌, ◌-◌, ◌*◌, ◌^◌, List, [], ◌∷◌, ◌++◌, Option, none, some, Bool, true, false, not,
  ◌&&◌, ◌||◌, Bytes, codes, ltb, leb, ◌==◌, if◌then◌else◌, ◌>>=◌, length,
}
use cpufb.Text.Bytes.{is_empty, bytes_eq, lowercase}
use cpufb.Text.Decimal.{to_string, value}
use cpufb.Text.Trim.{trim}
use cpufb.Text.Strtoull.{skip_spaces, span_digits}
use cpufb.Integers.{ℤ, pos, negsuc, to_int, int_lt, int_add}
use cpufb.Cache.Sizes.{parse_positive_integer, parse_cache_size}
use cpufb.Cache.Levels.{LinuxCacheEntry}

-- `std::strtol` of digits behind a sign: the value and the rest, none where there are no digits.
unfoldable pub to_long : Bool → ℕ → ℤ
to_long true zero = pos 0
to_long true (suc n) = if ltb n (2 ^ 63) then negsuc n else negsuc (2 ^ 63 - 1)
to_long false n = if ltb n (2 ^ 63) then pos n else pos (2 ^ 63 - 1)

unfoldable pub digits_of : Bool → Bytes → Option (ℤ × Bytes)
unfolding to_long
digits_of negative s =
    let ds = (span_digits s).0 in
    let rest = (span_digits s).1 in
    if is_empty ds then none else some (to_long negative (value 0 ds), rest)

unfoldable pub after_sign : Bytes → Option (ℤ × Bytes)
unfolding digits_of
after_sign [] = none
after_sign (c ∷ s) =
    if c == b'-'
    then digits_of true s
    else if c == b'+'
    then digits_of false s
    else digits_of false (c ∷ s)

unfoldable pub strtol : Bytes → Option (ℤ × Bytes)
unfolding after_sign
strtol s = after_sign (skip_spaces s)

-- `last - first + 1` where `last` is not below `first`.
unfoldable pub span_of : ℤ → ℤ → ℕ
span_of (pos first) (pos last) = last - first + 1
span_of (pos first) (negsuc last) = 0
span_of (negsuc first) (pos last) = last + first + 2
span_of (negsuc first) (negsuc last) = first - last + 1

-- What a round reads: the ends of a range, and where it stops; `none` is its `break`.
unfoldable pub read_last : ℤ → Bytes → Option (ℤ × ℤ × Bytes)
unfolding strtol
read_last first [] = some (first, first, [])
read_last first (c ∷ s) =
    if c == b'-'
    then (do (last, end) ← strtol s; some (first, last, end))
    else some (first, first, c ∷ s)

unfoldable pub read_cpus : Bytes → Option (ℤ × ℤ × Bytes)
unfolding strtol read_last
read_cpus s = do (first, end) ← strtol s; read_last first end

unfoldable pub skip_comma : Bytes → Bytes
skip_comma [] = []
skip_comma (c ∷ s) = if c == b',' then s else c ∷ s

-- The loop, on fuel. `none` is its end, or an overflow.
unfoldable pub count_from : ℕ → ℤ → Bytes → Option ℤ
unfolding read_cpus skip_comma int_add span_of
count_from fuel count [] = some count
count_from zero count (c ∷ s) = none
count_from (suc fuel) count (c ∷ s) = elim (read_cpus (c ∷ s)) [
  | none ↦ some count
  | some (first, last, end) ↦
      let more = if int_lt last first then pos 0 else to_int (span_of first last) in
      (do sum ← int_add count more; count_from fuel sum (skip_comma end))
]

unfoldable pub count_cpu_list : Bytes → Option ℤ
unfolding count_from
count_cpu_list list = count_from (length list) (pos 0) list

module _ (files : Bytes → Option Bytes) where
  unfoldable pub read_text_file : Bytes → Option Bytes
  unfolding is_empty trim
  read_text_file path = do
    line ← files path
    if is_empty (trim line) then none else some (trim line)

  unfoldable pub read_sysfs_int : Bytes → ℕ
  unfolding read_text_file
  read_sysfs_int path = elim (do text ← read_text_file path; parse_positive_integer text) [
    | none ↦ 0
    | some n ↦ if ltb 2147483647 n then 0 else n
  ]
