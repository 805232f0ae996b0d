-- ===== src/TPool/Tests.antt =====
-- The theorems about the thread pool at concrete inputs: a job is a number.
use disco_c.Prelude.{ℕ, ◌≡◌, refl, true, some, [], ◌∷◌, ◌++◌, arith}
use disco_c.Prelude.Int.{pos}
use mathlib.Core.List.{Perm}
use disco_c.PrioQueue.{Timeval, push_nodes, push_size, prio_init, prio_push, pop_nodes, prio_pop}
use disco_c.TPool.{
  Work, TPool, is_future, to_timespec, is_sooner, next_sleep, t_pool_init, t_pool_add_work,
  head_sleep, popped, t_pool_pop_work, work_on, thread_round, t_pool_destroy,
}
use disco_c.TPool.Deadline.{
  IsReady, Takes, t_pool_init-IsReady, t_pool_add_work-IsReady, t_pool_pop_work-IsReady,
}
use disco_c.TPool.Rounds.{thread_round-Takes, thread_round_early}
use disco_c.TPool.System.{
  gone, System, all_ready, start, add, add_late, take, finish, leave, stop_all, Reach, here, next,
  alive,
}
use disco_c.TPool.Workers.{IsSound, Reach-IsSound, stopped_drained}

abbrev at_time : ℕ → Timeval
at_time n = record { tv_sec = pos n; tv_usec = pos 0 }

abbrev work_at : ℕ → ℕ → Work ℕ
work_at job n = record { job = job; wait_until = at_time n }

-- One thread; job 7 for the second 3.
abbrev one_job : TPool ℕ
unfolding t_pool_add_work t_pool_init prio_init prio_push push_nodes push_size next_sleep is_sooner
one_job = t_pool_add_work (t_pool_init 1 (pos 0)) 7 (at_time 3)

abbrev no_job : TPool ℕ
unfolding t_pool_pop_work popped prio_pop pop_nodes head_sleep
no_job = (t_pool_pop_work one_job).1

one_job-IsReady : IsReady one_job
unfolding one_job t_pool_add_work
one_job-IsReady =
    t_pool_add_work-IsReady (t_pool_init 1 (pos 0)) 7 (at_time 3) (t_pool_init-IsReady 1 (pos 0))

one_job_round : thread_round (at_time 4) one_job ≡ work_on (some (work_at 7 3)) no_job
unfolding thread_round t_pool_pop_work popped prio_pop pop_nodes head_sleep is_future to_timespec
    one_job
one_job_round = refl

thread_round-Takes_example : Takes (at_time 4) one_job (some (work_at 7 3)) no_job
thread_round-Takes_example =
    thread_round-Takes (at_time 4) one_job no_job (some (work_at 7 3)) one_job-IsReady one_job_round

thread_round_early_example :
    (tp' : TPool ℕ) × (thread_round (at_time 4) (t_pool_add_work one_job 8 (at_time 60))
      ≡ work_on (some (work_at 8 60)) tp')
    × (tp'.queue.nodes ≡ record { payload = work_at 7 3; wait_until = at_time 3 } ∷ [])
unfolding is_sooner is_future one_job
thread_round_early_example =
    thread_round_early (at_time 4) one_job _ 8 (at_time 60) refl refl refl refl

t_pool_add_work-IsReady_example : IsReady (t_pool_add_work one_job 8 (at_time 60))
t_pool_add_work-IsReady_example = t_pool_add_work-IsReady one_job 8 (at_time 60) one_job-IsReady

t_pool_pop_work-IsReady_example : IsReady (t_pool_pop_work one_job).1
t_pool_pop_work-IsReady_example = t_pool_pop_work-IsReady one_job one_job-IsReady

-- The job is added and taken at the second 4; while it runs, the pool is stopped and job 9 is added; then
-- the thread ends.
abbrev late_pool : TPool ℕ
unfolding t_pool_add_work
late_pool = t_pool_add_work (record no_job { stop = true }) 9 (at_time 5)

abbrev ended : System ℕ
ended = record {
  pool = record late_pool { thread_count = 0 };
  threads = gone ∷ [];
  added = work_at 7 3 ∷ [];
  late = work_at 9 5 ∷ [];
  finished = work_at 7 3 ∷ [];
  dropped = [];
}

ended_reached : Reach (start 1 (pos 0)) ended
unfolding start all_ready t_pool_init prio_init t_pool_destroy thread_round t_pool_add_work
    prio_push push_nodes push_size next_sleep is_sooner no_job late_pool
ended_reached =
    next
      (next
        (next
          (next
            (next (next here (add 7 (at_time 3) refl))
              (take (at_time 4) [] [] (work_at 7 3) no_job refl one_job_round))
            (stop_all refl))
          (add_late 9 (at_time 5) refl refl (omega arith)))
        (finish [] [] (work_at 7 3) refl))
      (leave (at_time 4) [] [] (record late_pool { thread_count = 0 }) refl refl)

Reach-IsSound_example : IsSound ended
Reach-IsSound_example = Reach-IsSound 1 (pos 0) ended ended_reached

stopped_drained_example :
    (alive ended.threads ≡ 0) × Perm ended.added (ended.finished ++ ended.dropped)
unfolding late_pool
stopped_drained_example = stopped_drained 1 (pos 0) ended ended_reached refl refl
