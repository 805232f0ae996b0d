-- ===== src/PrioQueue/Tests.antt =====
-- Runs of the queue, and its theorems at a concrete queue.
use disco_c.Prelude.{ℕ, ◌≡◌, refl, some, [], ◌∷◌}
use disco_c.Prelude.Int.{pos}
use disco_c.PrioQueue.{
  Timeval, PrioNode, PrioQueue, not_after, prio_init, prio_push, prio_pop, prio_destroy_queue,
}
use disco_c.PrioQueue.Order.{IsWellFormed, prio_push-IsWellFormed, prio_pop-IsWellFormed}
use disco_c.PrioQueue.Insert.{Splits, prio_push-Splits}
use disco_c.PrioQueue.Destroy.{prio_destroy_queue_leaks_last}

abbrev at_second : ℕ → Timeval
at_second n = record { tv_sec = pos n; tv_usec = pos 0 }

abbrev node : ℕ → PrioNode ℕ
node n = record { payload = n; wait_until = at_second n }

abbrev three : PrioQueue ℕ
three = record { nodes = node 4 ∷ node 7 ∷ node 2 ∷ []; size = 3 }

-- The first node stays the last one: 2 was pushed first.
pushes :
    prio_push (prio_push (prio_push prio_init 2 (at_second 2)) 7 (at_second 7)) 4 (at_second 4)
    ≡ three
unfolding prio_init prio_push not_after
pushes = refl

pop_three : prio_pop three ≡ (some (node 4), record { nodes = node 7 ∷ node 2 ∷ []; size = 2 })
unfolding prio_pop
pop_three = refl

destroy_three : prio_destroy_queue three ≡ node 4 ∷ node 7 ∷ []
unfolding prio_destroy_queue
destroy_three = refl

three-IsWellFormed : IsWellFormed three
unfolding not_after
three-IsWellFormed = record { counted = refl; ordered = (refl, (tt, (tt, tt))) }

prio_push-IsWellFormed_example : IsWellFormed (prio_push three 5 (at_second 5))
prio_push-IsWellFormed_example = prio_push-IsWellFormed three 5 (at_second 5) three-IsWellFormed

prio_pop-IsWellFormed_example : IsWellFormed (prio_pop three).1
prio_pop-IsWellFormed_example = prio_pop-IsWellFormed three three-IsWellFormed

prio_push-Splits_example : Splits (node 5) three.nodes (prio_push three 5 (at_second 5)).nodes
prio_push-Splits_example =
    prio_push-Splits three 5 (at_second 5) (node 4) (node 7 ∷ node 2 ∷ []) refl

prio_destroy_queue_leaks_last_example : prio_destroy_queue three ≡ node 4 ∷ node 7 ∷ []
prio_destroy_queue_leaks_last_example =
    prio_destroy_queue_leaks_last three (node 4) (node 2) (node 7 ∷ []) refl
