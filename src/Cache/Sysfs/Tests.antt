-- ===== src/Cache/Sysfs/Tests.antt =====
-- common/cache/cache_topology.cpp: a list of CPUs.
use cpufb.Base.{◌<◌, ◌^◌, ◌≡◌, refl, [], ◌∷◌, some, codes, arith}
use cpufb.Text.Bytes.{is_empty}
use cpufb.Text.Decimal.{to_string, value}
use cpufb.Text.Strtoull.{span_digits, skip_spaces, is_space}
use cpufb.Integers.{pos, to_int, int_lt}
use cpufb.Cache.Sysfs.{count_cpu_list}
use cpufb.Cache.Sysfs.Counted.{written, total, count_cpu_list-written}

four_and_one : count_cpu_list (codes "0-3,8") ≡ some (pos 5)
unfolding count_cpu_list span_digits skip_spaces to_int int_lt is_empty is_space value
four_and_one = refl

written_list : written ((0, 3) ∷ (8, 8) ∷ []) ≡ codes "0-3,8"
unfolding written to_string
written_list = refl

-- A round that reads no number ends the loop.
broken_list : count_cpu_list (codes "0-,8") ≡ some (pos 0)
unfolding count_cpu_list span_digits skip_spaces to_int int_lt is_empty is_space value
broken_list = refl

five : total ((0, 3) ∷ (8, 8) ∷ []) < 2 ^ 31
unfolding total
five = omega arith

count_cpu_list-written_example :
    count_cpu_list (written ((0, 3) ∷ (8, 8) ∷ [])) ≡ some (pos (total ((0, 3) ∷ (8, 8) ∷ [])))
count_cpu_list-written_example =
    count_cpu_list-written ((0, 3) ∷ (8, 8) ∷ [])
      ((omega arith, omega arith), ((omega arith, omega arith), tt)) five
