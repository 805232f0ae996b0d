-- ===== src/TPool/Rounds.antt =====
-- When a thread of the pool takes work, and which work it takes.
use disco_c.Prelude.{
  ◌-◌, ◌≡◌, refl, sym, ap, ◌∙◌, ◌≢◌, ◌⊎◌, inl, inr, true, false, Option, some, List, [], ◌∷◌, arith,
  length, ◌==◌,
}
use disco_c.Prelude.Int.{negsuc}
use disco_c.PrioQueue.{
  Timeval, PrioNode, push_loop, push_nodes, push_size, prio_push, pop_nodes, prio_pop,
}
use disco_c.TPool.{
  Work, TPool, is_future, is_sooner, next_sleep, t_pool_add_work, popped, t_pool_pop_work, quit,
  work_on, thread_round,
}
use disco_c.TPool.Deadline.{IsWaitOf, IsReady, t_pool_pop_work-IsReady, some_due, Takes}

module _ {ℓ} {J : Type ℓ} where
  work_on_inv :
      (now : Timeval) (tp tp' : TPool J) (work : Option (Work J))
      → thread_round now tp ≡ work_on work tp'
      → (tp.stop ≡ false)
        × (is_future now tp.sleep_until ≡ false)
        × ((tp.queue.size == 0) ≡ false)
        × ((t_pool_pop_work tp).0 ≡ work)
        × ((t_pool_pop_work tp).1 ≡ tp')
  unfolding thread_round
  work_on_inv now tp tp' work e = ground arith

  popped_lem :
      (tp : TPool J) (nodes : List (PrioNode (Work J)))
      → tp.queue.nodes ≡ nodes
      → length nodes ≢ 0
      → (head : PrioNode (Work J)) × (rest : List (PrioNode (Work J))) × (tp.queue.nodes
          ≡ head ∷ rest)
        × ((t_pool_pop_work tp).0 ≡ some head.payload)
        × ((t_pool_pop_work tp).1.queue.nodes ≡ rest)
  unfolding t_pool_pop_work popped prio_pop pop_nodes
  popped_lem tp [] e n = absurd (n refl)
  popped_lem tp (head ∷ rest) e n = (head, rest, e, rw (e, pop_nodes) refl, rw (e, pop_nodes) refl)

  pop_keeps :
      (tp : TPool J)
      → ((t_pool_pop_work tp).1.stop ≡ tp.stop)
        × ((t_pool_pop_work tp).1.thread_count ≡ tp.thread_count)
  unfolding t_pool_pop_work popped
  pop_keeps tp = ground arith

  -- A thread that goes on to work found a pool that is not stopped, with work in its queue, some of
  -- which is due; what it took is the head of the queue, never NULL, and it leaves the rest with the
  -- time to sleep until the deadline of a node in it.
  pub thread_round-Takes :
      (now : Timeval) (tp tp' : TPool J) (work : Option (Work J))
      → IsReady tp
      → thread_round now tp ≡ work_on work tp'
      → Takes now tp work tp'
  thread_round-Takes now tp tp' work r e =
      let (s, f, z, w, t) = work_on_inv now tp tp' work e in
      let n : length tp.queue.nodes ≢ 0 = ground (arith, r.queued.counted) in
      let (head, rest, q, a, b) = popped_lem tp tp.queue.nodes refl n in
      record {
        head = head;
        rest = rest;
        queue = q;
        taken = sym w ∙ a;
        left = ap (λ (x : TPool J). x.queue.nodes) (sym t) ∙ b;
        stopped = s;
        going = ap (λ (x : TPool J). x.stop) (sym t) ∙ (pop_keeps tp).0;
        counted = ap (λ (x : TPool J). x.thread_count) (sym t) ∙ (pop_keeps tp).1;
        due = some_due now tp.sleep_until tp.queue.nodes f (waits r.sleeping n);
        ready = rw t at (t_pool_pop_work-IsReady tp r);
      }
    where
      waits :
          ((tp.queue.nodes ≡ []) × (tp.sleep_until.tv_sec ≡ negsuc 0))
            ⊎ IsWaitOf tp.sleep_until tp.queue.nodes
          → length tp.queue.nodes ≢ 0
          → IsWaitOf tp.sleep_until tp.queue.nodes
      waits (inl (e, _)) n = absurd (n (ap length e))
      waits (inr i) n = i

  round_works :
      (now : Timeval) (tp : TPool J) (head : PrioNode (Work J)) (rest : List (PrioNode (Work J)))
      → tp.stop ≡ false
      → is_future now tp.sleep_until ≡ false
      → (tp.queue.size == 0) ≡ false
      → tp.queue.nodes ≡ head ∷ rest
      → (tp' : TPool J) × (thread_round now tp ≡ work_on (some head.payload) tp')
        × (tp'.queue.nodes ≡ rest)
  unfolding thread_round t_pool_pop_work popped prio_pop pop_nodes
  round_works now tp head rest s f z e =
      ((t_pool_pop_work tp).1, rw (s, f, z, e, pop_nodes) refl, rw (e, pop_nodes) refl)

  add_behind :
      (tp : TPool J) (due : PrioNode (Work J)) (job : J) (later : Timeval)
      → tp.queue.nodes ≡ due ∷ []
      → is_sooner tp.sleep_until later ≡ false
      → let tp' = t_pool_add_work tp job later in
        (tp'.queue.nodes
          ≡ record { payload = record { job = job; wait_until = later }; wait_until = later }
            ∷ due
            ∷ [])
        × (tp'.sleep_until ≡ tp.sleep_until)
        × ((tp'.queue.size == 0) ≡ false)
        × (tp'.stop ≡ tp.stop)
  unfolding t_pool_add_work next_sleep prio_push push_nodes push_loop push_size
  add_behind tp due job later q k =
      (rw (q, push_nodes) refl, rw k refl, rw (q, push_size) (ground arith), refl)

  -- To a pool whose only work is due at `now`, work for a time that is not sooner is added: the next
  -- round at `now` takes the added work, whether its time has come or not, and leaves the work that
  -- is due.
  pub thread_round_early :
      (now : Timeval) (tp : TPool J) (due : PrioNode (Work J)) (job : J) (later : Timeval)
      → tp.stop ≡ false
      → tp.queue.nodes ≡ due ∷ []
      → is_sooner tp.sleep_until later ≡ false
      → is_future now tp.sleep_until ≡ false
      → (tp' : TPool J) × (thread_round now (t_pool_add_work tp job later)
          ≡ work_on (some (record { job = job; wait_until = later })) tp')
        × (tp'.queue.nodes ≡ due ∷ [])
  thread_round_early now tp due job later s q k f =
      let (n, sl, z, st) = add_behind tp due job later q k in
      round_works now (t_pool_add_work tp job later) _ (due ∷ []) (st ∙ s)
        (ap (is_future now) sl ∙ f) z n

  -- A thread that ends found the pool stopped, and counts itself off.
  pub quit_inv :
      (now : Timeval) (tp tp' : TPool J)
      → thread_round now tp ≡ quit tp'
      → (tp.stop ≡ true) × (tp' ≡ record tp { thread_count = tp.thread_count - 1 })
  unfolding thread_round
  quit_inv now tp tp' e = ground arith
