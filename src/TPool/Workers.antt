-- ===== src/TPool/Workers.antt =====
-- What holds after any interleaving of the threads.
use disco_c.Prelude.{
  ℕ, zero, suc, ◌-◌, ◌≡◌, refl, sym, ap, ◌∙◌, true, some, List, [], ◌∷◌, ◌++◌, arith,
}
use disco_c.Prelude.Int.{ℤ}
use mathlib.Core.List.{Perm}
use mathlib.Core.List.Perm
use disco_c.PrioQueue.{prio_push, prio_init}
use disco_c.TPool.{t_pool_init, t_pool_add_work, t_pool_destroy}
use disco_c.TPool.Deadline.{IsReady, t_pool_init-IsReady, t_pool_add_work-IsReady}
use disco_c.TPool.Rounds.{thread_round-Takes, quit_inv}
use disco_c.TPool.System.{
  Thread, ready, running, gone, System, all_ready, start, Step, add, add_late, take, finish, leave,
  stop_all, Reach, here, next, alive, in_hand, waiting, known,
}
use disco_c.TPool.Accounting.{add-Perm, take-Perm, finish-Perm, leave-Perm, stop-Perm, alive-swap}

module _ {ℓ} {J : Type ℓ} where
  -- The thread count is the number of threads that have not returned, and all work that was added before
  -- the stop is in one place: in the queue, in the hands of one thread, finished, or freed at the end. So
  -- no thread has got any work that was added after the stop.
  pub record IsSound (s : System J) : Type ℓ where
    pub pool_ready : IsReady s.pool
    pub counted : s.pool.thread_count ≡ alive s.threads
    pub accounted : Perm s.added (known s)

  leave-IsSound :
      (s : System J) (before behind : List (Thread J))
      → s.threads ≡ before ++ ready ∷ behind
      → IsSound s
      → IsSound (record s {
        pool = record s.pool { thread_count = s.pool.thread_count - 1 };
        threads = before ++ gone ∷ behind;
      })
  unfolding known alive
  leave-IsSound s before behind e i = record {
    pool_ready = record { queued = i.pool_ready.queued; sleeping = i.pool_ready.sleeping };
    counted =
        omega (arith, i.counted, ap alive e, alive-swap before behind ready gone 1 (omega arith));
    accounted = leave-Perm s before behind e i.accounted;
  }

  -- Every step keeps the pool sound: the thread count is the number of threads that have not returned,
  -- no work is lost or run twice, and the time to sleep until is the deadline of a node in the queue.
  pub Step-IsSound : {s t : System J} → Step s t → IsSound s → IsSound t
  unfolding known t_pool_add_work prio_push t_pool_destroy alive waiting
  Step-IsSound {s = s} (add job wait_until e) i = record {
    pool_ready = t_pool_add_work-IsReady s.pool job wait_until i.pool_ready;
    counted = i.counted;
    accounted = add-Perm s _ e i.accounted;
  }
  Step-IsSound {s = s} (add_late job wait_until e d p) i = record {
    pool_ready = t_pool_add_work-IsReady s.pool job wait_until i.pool_ready;
    counted = i.counted;
    accounted = rw e (rw (e, waiting) at i.accounted);
  }
  Step-IsSound {s = s} (take now before behind work pool' e w) i =
      let t = thread_round-Takes now s.pool pool' (some work) i.pool_ready w in
      record {
        pool_ready = t.ready;
        counted = omega (
          arith,
          t.counted,
          i.counted,
          ap alive e,
          alive-swap before behind ready (running work) 0 (omega arith),
        );
        accounted =
            take-Perm s before behind work pool' t.head t.rest e t.stopped (t.going ∙ t.stopped)
              t.queue t.left (cc t.taken) i.accounted;
      }
  Step-IsSound {s = s} (finish before behind work e) i = record {
    pool_ready = i.pool_ready;
    counted = omega (
      arith,
      i.counted,
      ap alive e,
      alive-swap before behind (running work) ready 0 (omega arith),
    );
    accounted = finish-Perm s before behind work e i.accounted;
  }
  Step-IsSound {s = s} (leave now before behind pool' e w) i =
      let (_, q) = quit_inv now s.pool pool' w in rw q (leave-IsSound s before behind e i)
  Step-IsSound {s = s} (stop_all e) i = record {
    pool_ready = record { queued = i.pool_ready.queued; sleeping = i.pool_ready.sleeping };
    counted = i.counted;
    accounted = stop-Perm s e i.accounted;
  }

  alive-all_ready : (n : ℕ) (ts : List (Thread J)) → ts ≡ all_ready n → alive ts ≡ n
  unfolding alive all_ready
  alive-all_ready zero ts e = rw e refl
  alive-all_ready (suc n) ts e = rw e (omega (arith, alive-all_ready n (all_ready n) refl))

  in_hand-all_ready : (n : ℕ) (ts : List (Thread J)) → ts ≡ all_ready n → in_hand ts ≡ []
  unfolding in_hand all_ready
  in_hand-all_ready zero ts e = rw e refl
  in_hand-all_ready (suc n) ts e = rw e (in_hand-all_ready n (all_ready n) refl)

  start-IsSound : (num_t : ℕ) (usec : ℤ) → IsSound (start {J = J} num_t usec)
  unfolding start known t_pool_init prio_init waiting
  start-IsSound num_t usec = record {
    pool_ready = t_pool_init-IsReady num_t usec;
    counted = sym (alive-all_ready num_t _ refl);
    accounted = rw (in_hand-all_ready num_t _ refl) Perm.rfl;
  }

  -- After any interleaving of the threads with calls that add work and a stop, where no work is
  -- added after a stop that freed nodes of the queue, or when all threads have ended after a stop
  -- (it would read freed memory), the pool is sound: the thread count is the number of threads
  -- that have not returned; all work that was added before the stop waits in the queue, is run by
  -- one thread, is finished, or was freed by the stop, each exactly once, so that the threads run
  -- no work but what was added before the stop.
  pub Reach-IsSound : (num_t : ℕ) (usec : ℤ) (s : System J) → Reach (start num_t usec) s → IsSound s
  Reach-IsSound num_t usec s here = start-IsSound num_t usec
  Reach-IsSound num_t usec s (next r step) = Step-IsSound step (Reach-IsSound num_t usec _ r)

  in_hand-none : (ts : List (Thread J)) → alive ts ≡ 0 → in_hand ts ≡ []
  unfolding alive in_hand
  in_hand-none [] e = refl
  in_hand-none (gone ∷ ts) e = in_hand-none ts e
  in_hand-none (ready ∷ ts) e = absurd (omega (arith, e))
  in_hand-none (running w ∷ ts) e = absurd (omega (arith, e))

  -- When the pool has been stopped and its thread count has come to 0, which t_pool_destroy waits
  -- for, no thread runs any work, and all work that was added before the stop is finished or was
  -- freed by the stop, each exactly once. Work may have been added after the stop, which is
  -- neither run nor freed, but not after a stop that freed nodes of the queue, or when all threads
  -- have ended (it would read freed memory).
  pub stopped_drained :
      (num_t : ℕ) (usec : ℤ) (s : System J)
      → Reach (start num_t usec) s
      → s.pool.stop ≡ true
      → s.pool.thread_count ≡ 0
      → (alive s.threads ≡ 0) × Perm s.added (s.finished ++ s.dropped)
  unfolding known waiting
  stopped_drained num_t usec s r e z =
      let i = Reach-IsSound num_t usec s r in
      let a : alive s.threads ≡ 0 = sym i.counted ∙ z in
      (a, rw (e, waiting, in_hand-none s.threads a) at i.accounted)
