-- ===== src/TPool/System.antt =====
-- The threads of the pool as interleavings: what one thread does while it holds the lock is one step,
-- and so is the end of the work that it runs without the lock.
use disco_c.Prelude.{ℕ, zero, suc, ◌+◌, ◌<◌, ◌≡◌, Bool, true, false, some, List, [], ◌∷◌, ◌++◌, map}
use disco_c.Prelude.Int.{ℤ}
use disco_c.PrioQueue.{Timeval, PrioNode}
use disco_c.TPool.{
  Work, TPool, t_pool_init, t_pool_add_work, quit, work_on, thread_round, t_pool_destroy,
}

-- A thread between two steps: it waits for the lock or the condition, runs work, or has returned.
pub data Thread {ℓ} (J : Type ℓ) : Type ℓ where
  ready : Thread J
  running : Work J → Thread J
  gone : Thread J

-- `added` is the work that was added before the stop and `late` what was added after it; `finished`
-- has run to its end, and `dropped` was freed unrun by `t_pool_destroy`.
pub record System {ℓ} (J : Type ℓ) : Type ℓ where
  pub pool : TPool J
  pub threads : List (Thread J)
  pub added : List (Work J)
  pub late : List (Work J)
  pub finished : List (Work J)
  pub dropped : List (Work J)

module _ {ℓ} {J : Type ℓ} where
  unfoldable pub all_ready : ℕ → List (Thread J)
  all_ready zero = []
  all_ready (suc n) = ready ∷ all_ready n

  -- After `t_pool_init`.
  unfoldable pub start : ℕ → ℤ → System J
  unfolding all_ready
  start num_t usec = record {
    pool = t_pool_init num_t usec;
    threads = all_ready num_t;
    added = [];
    late = [];
    finished = [];
    dropped = [];
  }

  -- `t_pool_add_work` does not look at the stop: a thread that still runs a request may add it again after
  -- `t_pool_destroy`. If the stop freed nodes, the queue still points to them and the push reads freed
  -- memory: what happens then is undefined, and no step. The pool is there until the last thread has ended.
  pub data Step (s : System J) : System J → Type ℓ where
    add :
        (job : J) (wait_until : Timeval)
        → s.pool.stop ≡ false
        → Step s (record s {
          pool = t_pool_add_work s.pool job wait_until;
          added = record { job = job; wait_until = wait_until } ∷ s.added;
        })
    add_late :
        (job : J) (wait_until : Timeval)
        → s.pool.stop ≡ true
        → s.dropped ≡ []
        → 0 < s.pool.thread_count
        → Step s (record s {
          pool = t_pool_add_work s.pool job wait_until;
          late = record { job = job; wait_until = wait_until } ∷ s.late;
        })
    take :
        (now : Timeval) (before behind : List (Thread J)) (work : Work J) (pool' : TPool J)
        → s.threads ≡ before ++ ready ∷ behind
        → thread_round now s.pool ≡ work_on (some work) pool'
        → Step s (record s { pool = pool'; threads = before ++ running work ∷ behind })
    finish :
        (before behind : List (Thread J)) (work : Work J)
        → s.threads ≡ before ++ running work ∷ behind
        → Step s (record s { threads = before ++ ready ∷ behind; finished = work ∷ s.finished })
    leave :
        (now : Timeval) (before behind : List (Thread J)) (pool' : TPool J)
        → s.threads ≡ before ++ ready ∷ behind
        → thread_round now s.pool ≡ quit pool'
        → Step s (record s { pool = pool'; threads = before ++ gone ∷ behind })
    stop_all :
        s.pool.stop ≡ false
        → Step s (record s {
          pool = (t_pool_destroy s.pool).0;
          dropped = (t_pool_destroy s.pool).1 ++ s.dropped;
        })

  pub data Reach (s : System J) : System J → Type ℓ where
    here : Reach s s
    next : {t u : System J} → Reach s t → Step t u → Reach s u

  -- The threads that have not returned, and the work that they run.
  unfoldable pub alive : List (Thread J) → ℕ
  alive [] = 0
  alive (gone ∷ ts) = alive ts
  alive (ready ∷ ts) = alive ts + 1
  alive (running w ∷ ts) = alive ts + 1

  unfoldable pub in_hand : List (Thread J) → List (Work J)
  in_hand [] = []
  in_hand (gone ∷ ts) = in_hand ts
  in_hand (ready ∷ ts) = in_hand ts
  in_hand (running w ∷ ts) = w ∷ in_hand ts

  -- The work in the queue, as long as the pool is not stopped.
  unfoldable pub waiting : Bool → List (PrioNode (Work J)) → List (Work J)
  waiting true nodes = []
  waiting false nodes = map (λ n. n.payload) nodes

  -- Where the work is that was added before the stop.
  unfoldable pub known : System J → List (Work J)
  known s =
      waiting s.pool.stop s.pool.queue.nodes ++ (in_hand s.threads ++ (s.finished ++ s.dropped))
