-- ===== src/ThreadPool/Lists.antt =====
-- common/sys/thread_pool.cpp: the lists that parse_thread_pool returns.
use cpufb.Base.{
  ℕ, zero, suc, ◌+◌, ◌-◌, ◌≤◌, ◌<◌, ◌≡◌, List, some, arith, Bytes, max_int, length, length-append,
  All, All-append,
}
use cpufb.ThreadPool.Parse.{max_entries, cpus_from, parse_thread_pool}
use cpufb.ThreadPool.Grammar.{Entry, single, range, Body, last, more, cpus, length-cpus_from}
use cpufb.ThreadPool.Sound.{parse_thread_pool_sound}

cpus_from-le : (left n b : ℕ) → left + n ≤ b + 1 → All (λ cpu. cpu ≤ b) (cpus_from left n)
unfolding cpus_from
cpus_from-le left zero b h = tt
cpus_from-le left (suc n) b h = (omega arith, cpus_from-le (left + 1) n b (omega arith))

Entry-le : (e : Bytes) (left right : ℕ) → Entry e left right → (left ≤ right) × (right ≤ max_int)
Entry-le e left right (single v same) = (omega arith, omega (arith, v.fits))
Entry-le e left right (range a b split v w le) = (le, w.fits)

cpus-le :
    (e : Bytes) (left right : ℕ)
    → Entry e left right
    → (0 < length (cpus left right)) × All (λ cpu. cpu ≤ max_int) (cpus left right)
cpus-le e left right v =
    let r = Entry-le e left right v in
    (
      omega (arith, length-cpus_from left (right - left + 1)),
      cpus_from-le left (right - left + 1) max_int (omega arith),
    )

Body-lists : {s : Bytes} {xs : List ℕ} → Body s xs → (0 < length xs) × All (λ cpu. cpu ≤ max_int) xs
Body-lists (last e left right v split same) = rw same (cpus-le e left right v)
Body-lists (more e rest left right ys v b split same) =
    let h = cpus-le e left right v in
    rw same (
      omega (arith, length-append (cpus left right) ys, h.0),
      All-append _ (cpus left right) ys h.1 (Body-lists b).1,
    )

-- An accepted list is not empty, has at most 65536 entries, and holds values of `int`.
pub parse_thread_pool_lists :
    (text : Bytes) (xs : List ℕ)
    → parse_thread_pool text ≡ some xs
    → (0 < length xs) × (length xs ≤ max_entries) × All (λ cpu. cpu ≤ max_int) xs
parse_thread_pool_lists text xs h =
    let d = parse_thread_pool_sound text xs h in let r = Body-lists d.entries in (r.0, d.fits, r.1)
