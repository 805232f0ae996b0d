-- ===== src/PrioQueue/Destroy.antt =====
-- Which nodes `prio_destroy_queue` frees.
use disco_c.Prelude.{◌≡◌, refl, ap, List, [], ◌∷◌, ◌++◌}
use disco_c.PrioQueue.{PrioNode, PrioQueue, destroy_loop, destroy_nodes, prio_destroy_queue}

module _ {ℓ} {D : Type ℓ} where
  destroy_loop_lem :
      (prev last : PrioNode D) (rest : List (PrioNode D))
      → destroy_loop prev (rest ++ last ∷ []) ≡ prev ∷ rest
  unfolding destroy_loop
  destroy_loop_lem prev last [] = refl
  destroy_loop_lem prev last (cur ∷ []) = refl
  destroy_loop_lem prev last (cur ∷ more ∷ rest) =
      ap (◌∷◌ prev) (destroy_loop_lem cur last (more ∷ rest))

  -- A queue of two nodes or more is freed but for its last node, each of the others once and in
  -- order.
  pub prio_destroy_queue_leaks_last :
      (queue : PrioQueue D) (head last : PrioNode D) (rest : List (PrioNode D))
      → queue.nodes ≡ head ∷ rest ++ last ∷ []
      → prio_destroy_queue queue ≡ head ∷ rest
  unfolding prio_destroy_queue destroy_nodes
  prio_destroy_queue_leaks_last queue head last rest e = rw e (destroy_loop_lem head last rest)
