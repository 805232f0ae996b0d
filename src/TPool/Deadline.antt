-- ===== src/TPool/Deadline.antt =====
-- What the pool knows of deadlines when a thread takes work.
use disco_c.Prelude.{
  ℕ, ◌≡◌, refl, ◌⊎◌, inl, inr, false, Option, some, List, [], ◌∷◌, arith, Bool-cases,
}
use disco_c.Prelude.Int.{ℤ, negsuc}
use disco_c.PrioQueue.{
  Timeval, PrioNode, not_after, push_loop, push_nodes, prio_init, prio_push, pop_nodes, prio_pop,
}
use disco_c.PrioQueue.Order.{
  IsWellFormed, prio_init-IsWellFormed, prio_push-IsWellFormed, prio_pop-IsWellFormed,
}
use disco_c.TPool.{
  Work, TPool, is_future, is_sooner, next_sleep, t_pool_init, t_pool_add_work, head_sleep, popped,
  t_pool_pop_work,
}

module _ {ℓ} {D : Type ℓ} where
  -- Some node has the deadline.
  abbrev pub IsWaitOf : Timeval → List (PrioNode D) → Type 0
  IsWaitOf t [] = ⊥
  IsWaitOf t (n ∷ rest) = (t ≡ n.wait_until) ⊎ IsWaitOf t rest

module _ {ℓ} {J : Type ℓ} where
  -- `sleep_until` is the deadline of some node in the queue, though not always that of the head, or
  -- the queue is empty and `sleep_until` is marked by the second -1.
  pub record IsReady (tp : TPool J) : Type ℓ where
    pub queued : IsWellFormed tp.queue
    pub sleeping :
        ((tp.queue.nodes ≡ []) × (tp.sleep_until.tv_sec ≡ negsuc 0))
        ⊎ IsWaitOf tp.sleep_until tp.queue.nodes

  IsWaitOf-push_loop :
      (t : Timeval) (node cur : PrioNode (Work J)) (rest : List (PrioNode (Work J)))
      → (t ≡ node.wait_until) ⊎ IsWaitOf t (cur ∷ rest)
      → IsWaitOf t (push_loop node cur rest)
  unfolding push_loop
  IsWaitOf-push_loop t node cur [] (inl e) = inl e
  IsWaitOf-push_loop t node cur [] (inr i) = inr i
  IsWaitOf-push_loop t node cur (next ∷ rest) (inl e) =
      elim (Bool-cases (not_after cur.wait_until node.wait_until)) [
        | inl c ↦ rw c (inr (IsWaitOf-push_loop t node next rest (inl e)))
        | inr c ↦ rw c (inl e)
      ]
  IsWaitOf-push_loop t node cur (next ∷ rest) (inr (inl e)) =
      elim (Bool-cases (not_after cur.wait_until node.wait_until)) [
        | inl c ↦ rw c (inl e)
        | inr c ↦ rw c (inr (inl e))
      ]
  IsWaitOf-push_loop t node cur (next ∷ rest) (inr (inr i)) =
      elim (Bool-cases (not_after cur.wait_until node.wait_until)) [
        | inl c ↦ rw c (inr (IsWaitOf-push_loop t node next rest (inr i)))
        | inr c ↦ rw c (inr (inr i))
      ]

  IsWaitOf-push_nodes :
      (sleep : Timeval) (node : PrioNode (Work J)) (nodes : List (PrioNode (Work J)))
      → ((nodes ≡ []) × (sleep.tv_sec ≡ negsuc 0)) ⊎ IsWaitOf sleep nodes
      → IsWaitOf (next_sleep sleep node.wait_until) (push_nodes node nodes)
  unfolding push_nodes next_sleep is_sooner
  IsWaitOf-push_nodes sleep node [] (inl (_, e)) = inl (ground (arith, e))
  IsWaitOf-push_nodes sleep node [] (inr i) = absurd i
  IsWaitOf-push_nodes sleep node (head ∷ rest) (inl (e, _)) = absurd (cc e)
  IsWaitOf-push_nodes sleep node (head ∷ rest) (inr i) =
      elim (Bool-cases (is_sooner sleep node.wait_until)) [
        | inl c ↦ rw (c, next_sleep) (IsWaitOf-push_loop _ node head rest (inl refl))
        | inr c ↦ rw (c, next_sleep) (IsWaitOf-push_loop _ node head rest (inr i))
      ]

  -- A new pool, whatever its memory held, has no work and no deadline.
  pub t_pool_init-IsReady : (num_t : ℕ) (usec : ℤ) → IsReady (t_pool_init {J = J} num_t usec)
  unfolding t_pool_init prio_init
  t_pool_init-IsReady num_t usec = record {
    queued = prio_init-IsWellFormed;
    sleeping = inl (refl, refl);
  }

  -- Adding work keeps the queue well-formed and the time to sleep until the deadline of a node in it.
  pub t_pool_add_work-IsReady :
      (tp : TPool J) (job : J) (wait_until : Timeval)
      → IsReady tp
      → IsReady (t_pool_add_work tp job wait_until)
  unfolding t_pool_add_work prio_push
  t_pool_add_work-IsReady tp job wait_until r = record {
    queued = prio_push-IsWellFormed tp.queue _ wait_until r.queued;
    sleeping = inr (IsWaitOf-push_nodes tp.sleep_until _ tp.queue.nodes r.sleeping);
  }

  popped-IsReady :
      (tp : TPool J) (nodes : List (PrioNode (Work J))) (n : ℕ)
      → IsReady tp
      → IsWellFormed (pop_nodes nodes n).1
      → tp.queue.nodes ≡ nodes
      → IsReady (popped tp (pop_nodes nodes n)).1
  unfolding popped pop_nodes head_sleep
  popped-IsReady tp [] n r w e = r
  popped-IsReady tp (node ∷ []) n r w e = record { queued = w; sleeping = inl (refl, refl) }
  popped-IsReady tp (node ∷ head ∷ rest) n r w e = record { queued = w; sleeping = inr (inl refl) }

  -- Taking work, from the empty queue too, keeps the queue well-formed and the time to sleep until the
  -- deadline of a node in it.
  pub t_pool_pop_work-IsReady : (tp : TPool J) → IsReady tp → IsReady (t_pool_pop_work tp).1
  unfolding t_pool_pop_work prio_pop
  t_pool_pop_work-IsReady tp r =
      popped-IsReady tp tp.queue.nodes tp.queue.size r (prio_pop-IsWellFormed tp.queue r.queued)
        refl

  -- Some node is due at `now`.
  abbrev pub SomeDue : Timeval → List (PrioNode (Work J)) → Type 0
  SomeDue now [] = ⊥
  SomeDue now (n ∷ rest) = (is_future now n.wait_until ≡ false) ⊎ SomeDue now rest

  pub some_due :
      (now sleep : Timeval) (nodes : List (PrioNode (Work J)))
      → is_future now sleep ≡ false
      → IsWaitOf sleep nodes
      → SomeDue now nodes
  some_due now sleep [] f i = absurd i
  some_due now sleep (n ∷ rest) f (inl e) = inl (rw e at f)
  some_due now sleep (n ∷ rest) f (inr i) = inr (some_due now sleep rest f i)

  -- What a thread finds that goes on to work: the pool has not been stopped, the head of the queue is
  -- the work that it takes, and some node is due.
  pub record Takes (now : Timeval) (tp : TPool J) (work : Option (Work J)) (tp' : TPool J)
      : Type ℓ where
    pub head : PrioNode (Work J)
    pub rest : List (PrioNode (Work J))
    pub queue : tp.queue.nodes ≡ head ∷ rest
    pub taken : work ≡ some head.payload
    pub left : tp'.queue.nodes ≡ rest
    pub stopped : tp.stop ≡ false
    pub going : tp'.stop ≡ tp.stop
    pub counted : tp'.thread_count ≡ tp.thread_count
    pub due : SomeDue now tp.queue.nodes
    pub ready : IsReady tp'
