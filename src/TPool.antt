-- ===== src/TPool.antt =====
-- src/utils/t_pool.c and include/utils/t_pool.h: the thread pool. The time of day that
-- `gettimeofday` gives is the argument `now`; `J` is a job, a function with its argument.
pub mod Deadline
pub mod Rounds
pub mod Limits
pub mod System
pub mod Accounting
pub mod Workers
mod Tests
use disco_c.Prelude.{
  ℕ, zero, suc, ◌+◌, ◌-◌, ◌*◌, ◌/◌, ◌%◌, ◌^◌, ◌≤◌, ◌<◌, ◌≡◌, refl, sym, ap, ◌∙◌, subst, ◌≢◌, ◌↔◌,
  ◌⊎◌, inl, inr, Bool, true, false, not, ◌&&◌, ◌||◌, Option, none, some, List, [], ◌∷◌, ◌++◌, map,
  arith, length, length-append, All, ltb, leb, ◌==◌, if◌then◌else◌, ltb→lt, lt→ltb, leb→le, ==_iff,
  Bool-cases, Option-cases,
}
use disco_c.Prelude.Int.{ℤ, pos, negsuc, pos_part, neg_part, ltb_ℤ, leb_ℤ, eqb_ℤ, ◌+ℤ◌, ◌-ℤ◌, ◌*ℤ◌}
use disco_c.PrioQueue.{
  Timeval, PrioNode, PrioQueue, prio_init, prio_push, prio_pop, prio_destroy_queue,
}

-- `struct t_work`, whose `next` is always NULL.
pub record Work {ℓ} (J : Type ℓ) : Type ℓ where
  pub job : J
  pub wait_until : Timeval

-- `struct t_pool`, without the locks and the token.
pub record TPool {ℓ} (J : Type ℓ) : Type ℓ where
  pub queue : PrioQueue (Work J)
  pub thread_count : ℕ
  pub stop : Bool
  pub sleep_until : Timeval

-- `struct timespec`.
pub record Timespec : Type 0 where
  pub tv_sec : ℤ
  pub tv_nsec : ℤ

-- The time `t` is not before `now`.
unfoldable pub is_future : Timeval → Timeval → Bool
is_future now t =
    ltb_ℤ now.tv_sec t.tv_sec || (eqb_ℤ now.tv_sec t.tv_sec && leb_ℤ now.tv_usec t.tv_usec)

-- The time that the timed wait is given.
abbrev nsec_per_sec : ℤ
nsec_per_sec = pos 1_000_000_000

unfoldable pub carry_nsec : ℤ → ℤ → Timespec
unfolding ◌+ℤ◌ ◌-ℤ◌
carry_nsec sec nsec =
    if ltb_ℤ nsec_per_sec nsec
    then record { tv_sec = sec +ℤ pos 1; tv_nsec = nsec -ℤ nsec_per_sec }
    else record { tv_sec = sec; tv_nsec = nsec }

unfoldable pub to_timespec : Timeval → Timespec
unfolding carry_nsec ◌*ℤ◌
to_timespec t = carry_nsec t.tv_sec (t.tv_usec *ℤ pos 1000)

-- What `sleep_until` becomes when work for the second time is added.
unfoldable pub is_sooner : Timeval → Timeval → Bool
is_sooner sleep t =
    eqb_ℤ sleep.tv_sec (negsuc 0)
    || ltb_ℤ t.tv_sec sleep.tv_sec
    || (eqb_ℤ sleep.tv_sec t.tv_sec && ltb_ℤ t.tv_usec sleep.tv_usec)

unfoldable pub next_sleep : Timeval → Timeval → Timeval
unfolding is_sooner
next_sleep sleep t = if is_sooner sleep t then t else sleep

-- What a thread does when it looks at the pool under the lock: it waits for the condition, with a
-- time limit or without, ends, or goes on to run what it popped.
pub data Round {ℓ} (J : Type ℓ) : Type ℓ where
  timed_wait : Timespec → Round J
  wait : Round J
  quit : TPool J → Round J
  work_on : Option (Work J) → TPool J → Round J

module _ {ℓ} {J : Type ℓ} where
  -- The memory comes from `malloc`: the microseconds of `sleep_until` start as they are.
  unfoldable pub t_pool_init : ℕ → ℤ → TPool J
  unfolding prio_init
  t_pool_init num_t usec = record {
    queue = prio_init;
    thread_count = num_t;
    stop = false;
    sleep_until = record { tv_sec = negsuc 0; tv_usec = usec };
  }

  unfoldable pub t_pool_add_work : TPool J → J → Timeval → TPool J
  unfolding next_sleep
  t_pool_add_work tp job wait_until = record tp {
    queue = prio_push tp.queue (record { job = job; wait_until = wait_until }) wait_until;
    sleep_until = next_sleep tp.sleep_until wait_until;
  }

  -- `sleep_until` after a pop that left these nodes.
  unfoldable pub head_sleep : List (PrioNode (Work J)) → Timeval → Timeval
  head_sleep [] sleep = record sleep { tv_sec = negsuc 0 }
  head_sleep (head ∷ rest) sleep = head.wait_until

  unfoldable pub popped :
      TPool J → Option (PrioNode (Work J)) × PrioQueue (Work J) → Option (Work J) × TPool J
  unfolding head_sleep
  popped tp (none, queue) = (none, tp)
  popped tp (some node, queue) = (
    some node.payload,
    record tp { queue = queue; sleep_until = head_sleep queue.nodes tp.sleep_until },
  )

  unfoldable pub t_pool_pop_work : TPool J → Option (Work J) × TPool J
  unfolding popped
  t_pool_pop_work tp = popped tp (prio_pop tp.queue)

  -- One round of `thread_work_loop` up to the unlocking.
  unfoldable pub thread_round : Timeval → TPool J → Round J
  unfolding t_pool_pop_work to_timespec is_future
  thread_round now pool =
      if not pool.stop && (is_future now pool.sleep_until || pool.queue.size == 0)
      then (if ltb 0 pool.queue.size && is_future now pool.sleep_until
          then timed_wait (to_timespec pool.sleep_until)
          else wait)
      else (if pool.stop
          then quit (record pool { thread_count = pool.thread_count - 1 })
          else (let (work, pool') = t_pool_pop_work pool in work_on work pool'))

  -- The locked part of `t_pool_destroy`: the pool that it leaves, whose queue is not reset, the work
  -- that it frees and the nodes that it frees. (It then waits and frees the pool.)
  unfoldable pub t_pool_destroy : TPool J → TPool J × List (Work J) × List (PrioNode (Work J))
  t_pool_destroy tp =
      (record tp { stop = true }, map (λ n. n.payload) tp.queue.nodes, prio_destroy_queue tp.queue)
