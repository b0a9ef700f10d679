-- ===== src/ThreadPool/Queue/Tests.antt =====
-- common/sys/thread_pool.cpp: the linked work queue on concrete histories.
use cpufb.Base.{ℕ, arith, ◌≡◌, ◌≢◌, refl, List, [], ◌∷◌, none, some, true}
use cpufb.ThreadPool.Queue.{
  Ptr, Heap, Linked, unused, Event, adds, gets, finishes, added, took, ran, happens, tpool_add_work,
  tpool_work_create, tpool_work_get, set_next, link, unlink, write, set_held, finish, free_all,
}
use cpufb.ThreadPool.Queue.Refines.{promised, Comes, Refines}
use cpufb.ThreadPool.Queue.Histories.{
  Replay, fresh, after, promise, answers, linked_queue-Refines, destroyed_queue_frees,
}

abbrev two_items : List Event
two_items = gets 0 ∷ adds (some 8) 200 ∷ adds (some 7) 100 ∷ []

-- Two items are added, and worker 0 takes the first.
two_items-Replay : (c : Linked) × Replay two_items c (took ∷ added true ∷ added true ∷ [])
unfolding happens tpool_add_work tpool_work_create tpool_work_get set_next link unlink write
    set_held finish unused Comes
two_items-Replay = (
  _,
  after (gets 0) (after (adds (some 8) 200) (after (adds (some 7) 100) fresh refl refl) refl refl)
      refl refl,
)

linked_queue-Refines_example :
    (took ∷ added true ∷ added true ∷ [] ≡ answers two_items)
    × Refines two_items-Replay.0 (promise two_items)
    × ((e : Event)
        → Comes two_items-Replay.0 e
        → (d : Linked) × (happens two_items-Replay.0 e
            ≡ some (d, (promised (promise two_items) e).1)))
linked_queue-Refines_example =
    linked_queue-Refines two_items two_items-Replay.0 (took ∷ added true ∷ added true ∷ [])
      two_items-Replay.1

destroyed_queue_frees_example :
    (g : Heap) × (free_all 1 two_items-Replay.0.nodes two_items-Replay.0.work_first ≡ some g)
    × ((a : Ptr) → ((i : ℕ) → two_items-Replay.0.held i ≢ some a) → g a ≡ none)
    × ((i : ℕ) (p : Ptr) → two_items-Replay.0.held i ≡ some p → g p ≡ two_items-Replay.0.nodes p)
unfolding promise promised
destroyed_queue_frees_example =
    destroyed_queue_frees two_items two_items-Replay.0 (took ∷ added true ∷ added true ∷ []) 1
      two_items-Replay.1 (omega arith)

-- The worker runs the item that was added first.
first_in_first_out :
    answers (finishes 0 ∷ two_items) ≡ ran (some 7) ∷ took ∷ added true ∷ added true ∷ []
unfolding answers promise promised
first_in_first_out = refl
