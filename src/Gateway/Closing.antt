-- ===== src/Gateway/Closing.antt =====
-- When the connection is taken up again, and how often the heartbeat thread sends.
use disco_c.Prelude.{
  ℕ, zero, suc, ◌+◌, ◌-◌, ◌*◌, ◌≤◌, ◌<◌, ◌≡◌, refl, sym, ap, ◌∙◌, subst, inl, inr, Bool, true,
  false, not, ◌&&◌, none, some, List, [], ◌∷◌, ◌++◌, arith, length, leb, if◌then◌else◌, Bool-cases,
}
use disco_c.Prelude.Int.{negsuc, eqb_ℤ}
use disco_c.PrioQueue.{Timeval}
use disco_c.Json.{CJson}
use disco_c.Cache.Defs.{HashMap, Node}
use disco_c.Cache.Global.{DiscoCacheType}
use disco_c.Event.Bot.{
  Action, send, heartbeat, join_heartbeat_thread, set_timeout, cancel_service, Bot,
}
use disco_c.Event.Dispatch.{Structs}
use disco_c.Gateway.Ops.{
  act, with_client, stop_heartbeat, websocket_connect, websocket_close, websocket_exit,
  gateway_send_heartbeat, heartbeat_round, gateway_heartbeat_loop,
}
use disco_c.Gateway.Receive.{on_closed}

module _ {J D U : Type 0} (json : CJson J) (structs : Structs J D U) (h : HashMap (Node D))
    (id_of : DiscoCacheType → D → ℕ) where
  -- When the connection is closed and the login had not succeeded, or an exit was asked for, the client ends:
  -- it does not connect again, tells its heartbeat thread to end, and leaves its event loop.
  pub on_closed_ends :
      (bot : Bot U h)
      → (bot.websocket_client.success_login && not bot.websocket_client.exit) ≡ false
      → let r = on_closed json structs h id_of bot in
        (r.1 ≡ negsuc 0)
        × (r.0.websocket_client.active ≡ false)
        × (r.0.websocket_client.heartbeat_active ≡ false)
        × (r.0.websocket_client.connected ≡ false)
        × (r.0.websocket_client.exit ≡ true)
        × (r.0.actions
            ≡ cancel_service
                ∷ set_timeout
                ∷ (if bot.websocket_client.heartbeat_active then join_heartbeat_thread ∷ [] else [])
              ++ bot.actions)
  unfolding on_closed websocket_connect websocket_close stop_heartbeat act with_client
  on_closed_ends bot e = ground arith

  -- After `websocket_exit`, a closed connection is not taken up again, whether the login had succeeded or
  -- not: the client leaves its event loop, and no heartbeat thread is left running.
  exit_closes :
      (bot : Bot U h)
      → let b = (on_closed json structs h id_of (websocket_exit bot)).0 in
        (b.websocket_client.active ≡ false) × (b.websocket_client.heartbeat_active ≡ false)
  unfolding on_closed websocket_exit websocket_close stop_heartbeat act with_client
  exit_closes bot = ground arith

both : {A : Type 0} (x y : Bool) → x ≡ true → y ≡ true → (p q : A) → (if x && y then p else q) ≡ p
both x y a b p q = rw (a, b) refl

still_waiting :
    (k t interval : ℕ) → leb interval ((t + 1) * 10) ≡ false → interval ≤ k * 10 → t + 1 < k
still_waiting k t interval e h = ground arith

due_now :
    (k t interval : ℕ)
    → leb interval ((t + 1) * 10) ≡ true
    → (k - 1) * 10 < interval
    → t < k
    → k ≡ t + 1
due_now k t interval e h w = ground arith

one_more : (n k : ℕ) → suc n * k ≡ n * k + k
one_more n k = ground arith

-- A list with so many copies of an element before it.
abbrev pub repeats {ℓ} : {A : Type ℓ} → ℕ → A → List A → List A
repeats zero a xs = xs
repeats (suc n) a xs = a ∷ repeats n a xs

repeats-snoc {ℓ} :
    {A : Type ℓ} (n : ℕ) (a : A) (xs : List A) → repeats n a (a ∷ xs) ≡ repeats (suc n) a xs
repeats-snoc zero a xs = refl
repeats-snoc (suc n) a xs = ap (◌∷◌ a) (repeats-snoc n a xs)

-- The frame with the number of the last event, without a number if there was none.
abbrev pub beat : {U D : Type 0} {h : HashMap (Node D)} → Bot U h → Action
beat bot = send (heartbeat (if eqb_ℤ bot.seq (negsuc 0) then none else some bot.seq))

module _ {D U : Type 0} (h : HashMap (Node D)) where
  -- So many heartbeats have been sent and nothing else, and so many rounds have gone by since the last
  -- one.
  pub record Beats (k n : ℕ) (bot bot' : Bot U h) (t t' : ℕ) : Type 0 where
    pub sent : ℕ
    pub logged : bot'.actions ≡ repeats sent (beat bot) bot.actions
    pub rounds : t + n ≡ sent * k + t'
    pub waiting : t' < k

  loop_round :
      (now : Timeval) (times : List Timeval) (t : ℕ) (bot : Bot U h) (s : ℕ × Bot U h)
      → bot.websocket_client.active ≡ true
      → bot.websocket_client.heartbeat_active ≡ true
      → heartbeat_round now (t, bot) ≡ s
      → gateway_heartbeat_loop (now ∷ times) (t, bot) ≡ gateway_heartbeat_loop times s
  unfolding gateway_heartbeat_loop
  loop_round now times t bot s a b e =
      both _ _ a b (gateway_heartbeat_loop times (heartbeat_round now (t, bot))) (t, bot)
      ∙ ap (gateway_heartbeat_loop times) e

  round_sends :
      (now : Timeval) (t : ℕ) (bot : Bot U h)
      → leb bot.heartbeat_interval ((t + 1) * 10) ≡ true
      → heartbeat_round now (t, bot) ≡ (0, gateway_send_heartbeat now bot)
  unfolding heartbeat_round
  round_sends now t bot e = rw e refl

  round_waits :
      (now : Timeval) (t : ℕ) (bot : Bot U h)
      → leb bot.heartbeat_interval ((t + 1) * 10) ≡ false
      → heartbeat_round now (t, bot) ≡ (t + 1, bot)
  unfolding heartbeat_round
  round_waits now t bot e = rw e refl

  -- While the client is in use, with an interval for which k rounds of 10 ms are needed, every k-th round
  -- of the heartbeat thread sends one heartbeat, with the number of the last event or without one if there
  -- was none, and no other round sends anything.
  pub gateway_heartbeat_loop-Beats :
      (k : ℕ) (times : List Timeval) (t : ℕ) (bot : Bot U h)
      → bot.websocket_client.active ≡ true
      → bot.websocket_client.heartbeat_active ≡ true
      → (k - 1) * 10 < bot.heartbeat_interval
      → bot.heartbeat_interval ≤ k * 10
      → t < k
      → let (t', bot') = gateway_heartbeat_loop times (t, bot) in
        Beats k (length times) bot bot' t t'
  unfolding gateway_heartbeat_loop gateway_send_heartbeat act
  gateway_heartbeat_loop-Beats k [] t bot a b lo hi w = record {
    sent = 0;
    logged = refl;
    rounds = omega arith;
    waiting = w;
  }
  gateway_heartbeat_loop-Beats k (now ∷ times) t bot a b lo hi w =
      elim (Bool-cases (leb bot.heartbeat_interval ((t + 1) * 10))) [
        | inl e ↦
            let r =
              gateway_heartbeat_loop-Beats k times 0 (gateway_send_heartbeat now bot) a b lo hi
                (omega (arith, w)) in
            subst (λ s. Beats k (length (now ∷ times)) bot s.1 t s.0)
              (sym (loop_round now times t bot _ a b (round_sends now t bot e)))
              (record {
                sent = suc r.sent;
                logged = r.logged ∙ repeats-snoc r.sent (beat bot) bot.actions;
                rounds =
                    omega (
                      arith,
                      r.rounds,
                      one_more r.sent k,
                      due_now k t bot.heartbeat_interval e lo w,
                    );
                waiting = r.waiting;
              })
        | inr e ↦
            let r =
              gateway_heartbeat_loop-Beats k times (t + 1) bot a b lo hi
                (still_waiting k t bot.heartbeat_interval e hi) in
            subst (λ s. Beats k (length (now ∷ times)) bot s.1 t s.0)
              (sym (loop_round now times t bot _ a b (round_waits now t bot e)))
              (record {
                sent = r.sent;
                logged = r.logged;
                rounds = omega (arith, r.rounds);
                waiting = r.waiting;
              })
      ]
