-- ===== src/PrioQueue.antt =====
-- src/utils/prio_queue.c and include/utils/prio_queue.h: the priority queue of deadlines.
pub mod Order
pub mod Insert
pub mod Destroy
mod Tests
use disco_c.Prelude.{
  ℕ, ◌+◌, ◌-◌, Bool, ◌&&◌, ◌||◌, List, [], ◌∷◌, Option, none, some, if◌then◌else◌,
}
use disco_c.Prelude.Int.{ℤ, ltb_ℤ, leb_ℤ, eqb_ℤ}

-- `struct timeval`, whose two members are signed.
pub record Timeval : Type 0 where
  pub tv_sec : ℤ
  pub tv_usec : ℤ

-- `struct prio_node`; `next` is the rest of the list that the node heads.
pub record PrioNode {ℓ} (D : Type ℓ) : Type ℓ where
  pub payload : D
  pub wait_until : Timeval

-- `struct prio_queue`: the nodes from `head` on, and the counter kept beside them.
pub record PrioQueue {ℓ} (D : Type ℓ) : Type ℓ where
  pub nodes : List (PrioNode D)
  pub size : ℕ

-- The test of the loop in `prio_push`: the first time is not after the second.
unfoldable pub not_after : Timeval → Timeval → Bool
not_after a b = ltb_ℤ a.tv_sec b.tv_sec || (eqb_ℤ a.tv_sec b.tv_sec && leb_ℤ a.tv_usec b.tv_usec)

module _ {ℓ} {D : Type ℓ} where
  unfoldable pub prio_init : PrioQueue D
  prio_init = record { nodes = []; size = 0 }

  -- The loop of `prio_push` at `cur`, whose `next` heads the last argument, with the splice after
  -- the loop: `prev->next = node` (or `head = node`) and `node->next = cur`.
  unfoldable pub push_loop : PrioNode D → PrioNode D → List (PrioNode D) → List (PrioNode D)
  push_loop node cur [] = node ∷ cur ∷ []
  push_loop node cur (next ∷ rest) =
      if not_after cur.wait_until node.wait_until
      then cur ∷ push_loop node next rest
      else node ∷ cur ∷ next ∷ rest

  unfoldable pub push_nodes : PrioNode D → List (PrioNode D) → List (PrioNode D)
  unfolding push_loop
  push_nodes node [] = node ∷ []
  push_nodes node (head ∷ rest) = push_loop node head rest

  -- An empty queue has its size set to 1; any other has it counted up.
  unfoldable pub push_size : List (PrioNode D) → ℕ → ℕ
  push_size [] n = 1
  push_size (head ∷ rest) n = n + 1

  unfoldable pub prio_push : PrioQueue D → D → Timeval → PrioQueue D
  unfolding push_nodes push_size
  prio_push queue payload wait_until = record {
    nodes = push_nodes (record { payload = payload; wait_until = wait_until }) queue.nodes;
    size = push_size queue.nodes queue.size;
  }

  unfoldable pub pop_nodes : List (PrioNode D) → ℕ → Option (PrioNode D) × PrioQueue D
  pop_nodes [] n = (none, record { nodes = []; size = n })
  pop_nodes (node ∷ rest) n = (some node, record { nodes = rest; size = n - 1 })

  unfoldable pub prio_pop : PrioQueue D → Option (PrioNode D) × PrioQueue D
  unfolding pop_nodes
  prio_pop queue = pop_nodes queue.nodes queue.size

  -- The `do … while (cur && cur->next)` loop of `prio_destroy_queue`: the nodes that it frees, in
  -- order. One round frees `prev` and steps to `cur`.
  unfoldable pub destroy_loop : PrioNode D → List (PrioNode D) → List (PrioNode D)
  destroy_loop prev [] = prev ∷ []
  destroy_loop prev (cur ∷ []) = prev ∷ []
  destroy_loop prev (cur ∷ next ∷ rest) = prev ∷ destroy_loop cur (next ∷ rest)

  unfoldable pub destroy_nodes : List (PrioNode D) → List (PrioNode D)
  unfolding destroy_loop
  destroy_nodes [] = []
  destroy_nodes (head ∷ rest) = destroy_loop head rest

  unfoldable pub prio_destroy_queue : PrioQueue D → List (PrioNode D)
  unfolding destroy_nodes
  prio_destroy_queue queue = destroy_nodes queue.nodes
