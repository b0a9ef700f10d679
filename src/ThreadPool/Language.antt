-- ===== src/ThreadPool/Language.antt =====
-- common/sys/thread_pool.cpp: the language of parse_thread_pool.
use cpufb.Base.{ℕ, ◌≡◌, ◌↔◌, List, some, Bytes}
use cpufb.ThreadPool.Parse.{parse_thread_pool}
use cpufb.ThreadPool.Grammar.{Denotes}
use cpufb.ThreadPool.Sound.{parse_thread_pool_sound}
use cpufb.ThreadPool.Complete.{parse_thread_pool_complete}

-- The text is accepted with the list `xs` exactly when it denotes `xs`: it is an opening bracket,
-- entries with commas between them, each an `int` or an ascending range of them, and a closing
-- bracket at its end, and it stands for at most 65536 CPUs, listed in the order of the text.
pub parse_thread_pool-Denotes :
    (text : Bytes) (xs : List ℕ) → (parse_thread_pool text ≡ some xs) ↔ Denotes text xs
parse_thread_pool-Denotes text xs =
    (parse_thread_pool_sound text xs, parse_thread_pool_complete text xs)
