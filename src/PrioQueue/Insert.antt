-- ===== src/PrioQueue/Insert.antt =====
-- Where `prio_push` puts a node.
use disco_c.Prelude.{◌≡◌, refl, ap, ◌⊎◌, inl, inr, false, List, [], ◌∷◌, ◌++◌, All, Bool-cases}
use disco_c.PrioQueue.{Timeval, PrioNode, PrioQueue, not_after, push_loop, push_nodes, prio_push}
use disco_c.PrioQueue.Order.{IsNotAfter}

module _ {ℓ} {D : Type ℓ} where
  -- `nodes` falls into those that stay before the new node, none of which is due after it, and those
  -- that stay behind it: the old last node alone, or a node due after the new one and its followers.
  pub record Splits (node : PrioNode D) (nodes pushed : List (PrioNode D)) : Type ℓ where
    pub before : List (PrioNode D)
    pub first : PrioNode D
    pub behind : List (PrioNode D)
    pub old : nodes ≡ before ++ first ∷ behind
    pub new : pushed ≡ before ++ node ∷ first ∷ behind
    pub earlier : All (λ b. IsNotAfter b.wait_until node.wait_until) before
    pub stops : (behind ≡ []) ⊎ (not_after first.wait_until node.wait_until ≡ false)

  Splits-cons :
      {node : PrioNode D} (cur : PrioNode D) {nodes pushed : List (PrioNode D)}
      → IsNotAfter cur.wait_until node.wait_until
      → Splits node nodes pushed
      → Splits node (cur ∷ nodes) (cur ∷ pushed)
  Splits-cons cur h s = record {
    before = cur ∷ s.before;
    first = s.first;
    behind = s.behind;
    old = ap (◌∷◌ cur) s.old;
    new = ap (◌∷◌ cur) s.new;
    earlier = (h, s.earlier);
    stops = s.stops;
  }

  push_loop-Splits :
      (node cur : PrioNode D) (rest : List (PrioNode D))
      → Splits node (cur ∷ rest) (push_loop node cur rest)
  unfolding push_loop
  push_loop-Splits node cur [] = record {
    before = [];
    first = cur;
    behind = [];
    old = refl;
    new = refl;
    earlier = tt;
    stops = inl refl;
  }
  push_loop-Splits node cur (next ∷ rest) =
      elim (Bool-cases (not_after cur.wait_until node.wait_until)) [
        | inl e ↦ rw e (Splits-cons cur e (push_loop-Splits node next rest))
        | inr e ↦ rw e (record {
          before = [];
          first = cur;
          behind = next ∷ rest;
          old = refl;
          new = refl;
          earlier = tt;
          stops = inr e;
        })
      ]

  -- A push onto a queue that is not empty keeps every node and their order, and puts the new node
  -- behind nodes of which none is due after it, and before the first node that is due after it or
  -- before the old last node, whichever comes first.
  pub prio_push-Splits :
      (queue : PrioQueue D) (payload : D) (wait_until : Timeval) (head : PrioNode D)
      (rest : List (PrioNode D))
      → queue.nodes ≡ head ∷ rest
      → Splits
          (record { payload = payload; wait_until = wait_until })
          queue.nodes
          (prio_push queue payload wait_until).nodes
  unfolding prio_push push_nodes
  prio_push-Splits queue payload wait_until head rest e =
      rw e (push_loop-Splits (record { payload = payload; wait_until = wait_until }) head rest)

  push_loop_late :
      (node cur last : PrioNode D) (rest : List (PrioNode D))
      → All (λ b. IsNotAfter b.wait_until node.wait_until) (cur ∷ rest)
      → push_loop node cur (rest ++ last ∷ []) ≡ cur ∷ rest ++ node ∷ last ∷ []
  unfolding push_loop
  push_loop_late node cur last [] h = rw h.0
  push_loop_late node cur last (next ∷ rest) h =
      rw h.0 (ap (◌∷◌ cur) (push_loop_late node next last rest h.1))

  push_nodes_late :
      (node last : PrioNode D) (rest : List (PrioNode D))
      → All (λ b. IsNotAfter b.wait_until node.wait_until) rest
      → push_nodes node (rest ++ last ∷ []) ≡ rest ++ node ∷ last ∷ []
  unfolding push_nodes push_loop
  push_nodes_late node last [] h = refl
  push_nodes_late node last (cur ∷ rest) h = push_loop_late node cur last rest h

  -- The loop never passes the last node: a node due at or after all nodes but the last goes right
  -- before the last, whatever the deadline of the last is.
  prio_push_late :
      (queue : PrioQueue D) (payload : D) (wait_until : Timeval) (last : PrioNode D)
      (rest : List (PrioNode D))
      → queue.nodes ≡ rest ++ last ∷ []
      → All (λ b. IsNotAfter b.wait_until wait_until) rest
      → (prio_push queue payload wait_until).nodes
        ≡ rest ++ record { payload = payload; wait_until = wait_until } ∷ last ∷ []
  unfolding prio_push
  prio_push_late queue payload wait_until last rest e h = rw e (push_nodes_late _ last rest h)
