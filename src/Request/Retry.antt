-- ===== src/Request/Retry.antt =====
-- When a request is run again, and for how long that goes on.
use disco_c.Prelude.{
  ℕ, ◌+◌, ◌≤◌, ◌<◌, ◌≡◌, ◌≢◌, ◌↔◌, ◌⊎◌, true, Option, none, some, List, [], ◌∷◌, arith,
}
use disco_c.Prelude.Int.{ℤ, pos, ◌≤ℤ◌, ◌<ℤ◌, ◌+ℤ◌, ◌-ℤ◌}
use disco_c.TPool.{TPool}
use disco_c.TPool.Deadline.{IsReady, t_pool_add_work-IsReady}
use disco_c.Json.{CJson}
use disco_c.Request.{
  RequestNode, Reply, Outcome, finished, again, abandoned, unread, through_null, wait_from, attempt,
  requeue, request_t_pool,
}

-- For a time of day with microseconds in range, the next attempt's are in range exactly if the sum is not
-- one million: the carry is taken above one million and not at it.
wait_from_normal :
    (sec seconds : ℤ) (u v : ℕ)
    → u < 1_000_000
    → v < 1_000_000
    → let t = wait_from (record { tv_sec = sec; tv_usec = pos u }) seconds (pos v) in
      ((pos 0 ≤ℤ t.tv_usec) × (t.tv_usec <ℤ pos 1_000_000)) ↔ (u + v ≢ 1_000_000)
unfolding wait_from ◌+ℤ◌ ◌-ℤ◌
wait_from_normal sec seconds u v a b = ((λ n e. ground arith), (λ d. ground arith))

module _ {J : Type 0} (json : CJson J) where
  -- How the last run ended, with the number of runs up to it.
  add_run : Option (ℕ × Outcome) → Option (ℕ × Outcome)
  add_run none = none
  add_run (some (k, o)) = some (k + 1, o)

  -- The number of runs until the request is not run again, and how the last of them ended; `none` if it is
  -- still to be run again after these replies.
  unfoldable pub runs_until_done : List Reply → RequestNode → Option (ℕ × Outcome)
  unfolding add_run
  runs_until_done [] n = none
  runs_until_done (reply ∷ replies) n = elim (attempt json reply n) [
    | finished n' ↦ some (1, finished n')
    | abandoned n' ↦ some (1, abandoned n')
    | unread n' ↦ some (1, unread n')
    | through_null n' ↦ some (1, through_null n')
    | again n' t ↦ add_run (runs_until_done replies n')
  ]

  -- No reply asks to be called later.
  abbrev pub IsUnlimited : Reply → Type 0
  IsUnlimited reply = reply.code ≢ 429

  -- How a request ends that may fail so many times more.
  abbrev pub LastRun : ℕ → ℕ → Outcome → Type 0
  LastRun left k o =
      (((n' : RequestNode) × (o ≡ finished n')) × (k ≤ left))
      ⊎ (((n' : RequestNode) × (o ≡ unread n')) × (k ≡ left + 1))

  -- A reply of 429 with a number in `retry_after`.
  pub record IsRetryAfter (reply : Reply) : Type 0 where
    pub result : J
    pub field : J
    pub limited : reply.code ≡ 429
    pub parsed : json.parse reply.response ≡ some result
    pub found : json.get_object_item result "retry_after" ≡ some field
    pub number : json.is_number field ≡ true

  -- Whatever the reply is, the pool that was ready stays ready: its queue is well-formed, and the
  -- time to sleep until is the deadline of a node in it.
  request_t_pool-IsReady :
      (reply : Reply) (n : RequestNode) (pool : TPool RequestNode)
      → IsReady pool
      → IsReady (request_t_pool json reply n pool).1
  unfolding request_t_pool requeue
  request_t_pool-IsReady reply n pool r = go (attempt json reply n)
    where
      go : (o : Outcome) → IsReady (requeue json o pool)
      go (finished n') = r
      go (abandoned n') = r
      go (unread n') = r
      go (through_null n') = r
      go (again n' t) = t_pool_add_work-IsReady pool n' t r
