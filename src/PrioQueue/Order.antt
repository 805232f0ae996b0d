-- ===== src/PrioQueue/Order.antt =====
-- The order of deadlines that `prio_push` compares by, and the nodes that it keeps in order.
use disco_c.Prelude.{
  ℕ, ◌+◌, ◌≡◌, refl, inl, inr, true, false, List, [], ◌∷◌, arith, length, Bool-cases,
}
use disco_c.PrioQueue.{
  Timeval, PrioNode, PrioQueue, not_after, prio_init, push_loop, push_nodes, push_size, prio_push,
  pop_nodes, prio_pop,
}

abbrev pub IsNotAfter : Timeval → Timeval → Type 0
IsNotAfter a b = not_after a b ≡ true

pub IsNotAfter-refl : (a : Timeval) → IsNotAfter a a
unfolding not_after
IsNotAfter-refl a = ground arith

pub IsNotAfter-trans : (a b c : Timeval) → IsNotAfter a b → IsNotAfter b c → IsNotAfter a c
unfolding not_after
IsNotAfter-trans a b c h k = ground arith

pub IsNotAfter-total : (a b : Timeval) → not_after a b ≡ false → IsNotAfter b a
unfolding not_after
IsNotAfter-total a b h = ground arith

module _ {ℓ} {D : Type ℓ} where
  -- The time stands before the first node, unless that node is the last.
  abbrev pub Leads : Timeval → List (PrioNode D) → Type 0
  Leads t [] = Unit
  Leads t (b ∷ []) = Unit
  Leads t (b ∷ c ∷ rest) = IsNotAfter t b.wait_until

  -- All nodes but the last stand in the order of their deadlines.
  abbrev pub IsOrdered : List (PrioNode D) → Type 0
  IsOrdered [] = Unit
  IsOrdered (a ∷ rest) = Leads a.wait_until rest × IsOrdered rest

  Leads-cons :
      (t : Timeval) (b : PrioNode D) (rest : List (PrioNode D))
      → IsNotAfter t b.wait_until
      → Leads t (b ∷ rest)
  Leads-cons t b [] h = tt
  Leads-cons t b (c ∷ rest) h = h

  Leads-push_loop :
      (t : Timeval) (node cur : PrioNode D) (rest : List (PrioNode D))
      → IsNotAfter t node.wait_until
      → Leads t (cur ∷ rest)
      → Leads t (push_loop node cur rest)
  unfolding push_loop
  Leads-push_loop t node cur [] h l = h
  Leads-push_loop t node cur (next ∷ rest) h l =
      elim (Bool-cases (not_after cur.wait_until node.wait_until)) [
        | inl e ↦ rw e (Leads-cons t cur _ l)
        | inr e ↦ rw e h
      ]

  pub push_loop-IsOrdered :
      (node cur : PrioNode D) (rest : List (PrioNode D))
      → IsOrdered (cur ∷ rest)
      → IsOrdered (push_loop node cur rest)
  unfolding push_loop
  push_loop-IsOrdered node cur [] o = (tt, (tt, tt))
  push_loop-IsOrdered node cur (next ∷ rest) o =
      elim (Bool-cases (not_after cur.wait_until node.wait_until)) [
        | inl e ↦ rw e (
          Leads-push_loop cur.wait_until node next rest e o.0,
          push_loop-IsOrdered node next rest o.1,
        )
        | inr e ↦ rw e (IsNotAfter-total cur.wait_until node.wait_until e, o)
      ]

  length-push_loop :
      (node cur : PrioNode D) (rest : List (PrioNode D))
      → length (push_loop node cur rest) ≡ length rest + 2
  unfolding push_loop
  length-push_loop node cur [] = refl
  length-push_loop node cur (next ∷ rest) = ground (arith, length-push_loop node next rest)

  -- What the queue keeps: the counter is the number of nodes, and all but the last are in order.
  pub record IsWellFormed (queue : PrioQueue D) : Type 0 where
    pub counted : queue.size ≡ length queue.nodes
    pub ordered : IsOrdered queue.nodes

  pub prio_init-IsWellFormed : IsWellFormed prio_init
  unfolding prio_init
  prio_init-IsWellFormed = record { counted = refl; ordered = tt }

  length-push_nodes :
      (node : PrioNode D) (nodes : List (PrioNode D))
      → push_size nodes (length nodes) ≡ length (push_nodes node nodes)
  unfolding push_nodes push_size
  length-push_nodes node [] = refl
  length-push_nodes node (head ∷ rest) = omega (arith, length-push_loop node head rest)

  push_nodes-IsOrdered :
      (node : PrioNode D) (nodes : List (PrioNode D))
      → IsOrdered nodes
      → IsOrdered (push_nodes node nodes)
  unfolding push_nodes
  push_nodes-IsOrdered node [] o = (tt, tt)
  push_nodes-IsOrdered node (head ∷ rest) o = push_loop-IsOrdered node head rest o

  -- A push keeps the counter equal to the number of nodes, and all nodes but the last in the order
  -- of their deadlines.
  pub prio_push-IsWellFormed :
      (queue : PrioQueue D) (payload : D) (wait_until : Timeval)
      → IsWellFormed queue
      → IsWellFormed (prio_push queue payload wait_until)
  unfolding prio_push
  prio_push-IsWellFormed queue payload wait_until w = record {
    counted = rw w.counted (length-push_nodes _ queue.nodes);
    ordered = push_nodes-IsOrdered _ queue.nodes w.ordered;
  }

  pop_nodes-IsWellFormed :
      (nodes : List (PrioNode D)) (n : ℕ)
      → n ≡ length nodes
      → IsOrdered nodes
      → IsWellFormed (pop_nodes nodes n).1
  unfolding pop_nodes
  pop_nodes-IsWellFormed [] n h o = record { counted = h; ordered = tt }
  pop_nodes-IsWellFormed (node ∷ rest) n h o = record { counted = omega arith; ordered = o.1 }

  -- A pop, from the empty queue too, keeps the counter equal to the number of nodes, and all nodes
  -- but the last in the order of their deadlines.
  pub prio_pop-IsWellFormed :
      (queue : PrioQueue D) → IsWellFormed queue → IsWellFormed (prio_pop queue).1
  unfolding prio_pop
  prio_pop-IsWellFormed queue w = pop_nodes-IsWellFormed queue.nodes queue.size w.counted w.ordered
