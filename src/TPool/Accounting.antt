-- ===== src/TPool/Accounting.antt =====
-- Where the work of the pool is, before and after a step, and how many threads there are.
use disco_c.Prelude.{
  ℕ, ◌+◌, ◌≡◌, refl, ap, inl, inr, false, List, [], ◌∷◌, ◌++◌, map, arith, Bool-cases,
}
use mathlib.Core.List.{Perm, perm_middle, perm_append_comm, append_assoc}
use mathlib.Core.List.Perm
use disco_c.PrioQueue.{PrioNode, not_after, push_loop, push_nodes}
use disco_c.TPool.{Work, TPool}
use disco_c.TPool.System.{Thread, ready, running, gone, System, alive, in_hand, waiting, known}

module _ {ℓ} {J : Type ℓ} where
  pub alive-append : (xs ys : List (Thread J)) → alive (xs ++ ys) ≡ alive xs + alive ys
  unfolding alive
  alive-append [] ys = omega arith
  alive-append (gone ∷ xs) ys = alive-append xs ys
  alive-append (ready ∷ xs) ys = omega (arith, alive-append xs ys)
  alive-append (running w ∷ xs) ys = omega (arith, alive-append xs ys)

  pub in_hand-append : (xs ys : List (Thread J)) → in_hand (xs ++ ys) ≡ in_hand xs ++ in_hand ys
  unfolding in_hand
  in_hand-append [] ys = refl
  in_hand-append (gone ∷ xs) ys = in_hand-append xs ys
  in_hand-append (ready ∷ xs) ys = in_hand-append xs ys
  in_hand-append (running w ∷ xs) ys = ap (◌∷◌ w) (in_hand-append xs ys)

  pub push_loop-perm :
      (node cur : PrioNode (Work J)) (rest : List (PrioNode (Work J)))
      → Perm (node ∷ cur ∷ rest) (push_loop node cur rest)
  unfolding push_loop
  push_loop-perm node cur [] = Perm.rfl
  push_loop-perm node cur (after ∷ rest) =
      elim (Bool-cases (not_after cur.wait_until node.wait_until)) [
        | inl e ↦ rw e (
            Perm.trans (Perm.swap cur node (after ∷ rest))
              (Perm.cons cur (push_loop-perm node after rest)))
        | inr e ↦ rw e Perm.rfl
      ]

  pub push_nodes-perm :
      (node : PrioNode (Work J)) (nodes : List (PrioNode (Work J)))
      → Perm (node ∷ nodes) (push_nodes node nodes)
  unfolding push_nodes
  push_nodes-perm node [] = Perm.rfl
  push_nodes-perm node (head ∷ rest) = push_loop-perm node head rest

  -- An element may stand before a list, or before what follows the list.
  pub move_in :
      (w : Work J) (xs ys zs : List (Work J)) → Perm (w ∷ xs ++ (ys ++ zs)) (xs ++ (ys ++ w ∷ zs))
  move_in w xs ys zs =
      Perm.trans (Perm.symm (perm_middle xs (ys ++ zs)))
        (Perm.append_left xs (Perm.symm (perm_middle ys zs)))

  pub swap_front : (xs ys zs : List (Work J)) → Perm (xs ++ (ys ++ zs)) (ys ++ (xs ++ zs))
  swap_front xs ys zs =
      rw (← append_assoc xs ys zs, ← append_assoc ys xs zs)
        (Perm.append_right zs (perm_append_comm xs ys))

  pub put_in :
      (w : Work J) (xs ys zs rest : List (Work J))
      → Perm (w ∷ xs ++ ((ys ++ zs) ++ rest)) (xs ++ ((ys ++ w ∷ zs) ++ rest))
  put_in w xs ys zs rest =
      rw (append_assoc ys zs rest, append_assoc ys (w ∷ zs) rest) (move_in w xs ys (zs ++ rest))

  pub put_off :
      (w : Work J) (xs ys zs rest : List (Work J))
      → Perm (xs ++ ((ys ++ w ∷ zs) ++ rest)) (xs ++ ((ys ++ zs) ++ w ∷ rest))
  put_off w xs ys zs rest = Perm.append_left xs (
      Perm.trans
        (rw (append_assoc ys (w ∷ zs) rest, append_assoc ys zs rest) (perm_middle ys (zs ++ rest)))
        (Perm.symm (perm_middle (ys ++ zs) rest)))

  pub add-Perm :
      (s : System J) (node : PrioNode (Work J))
      → s.pool.stop ≡ false
      → Perm s.added (known s)
      → Perm (node.payload ∷ s.added) (
          waiting s.pool.stop (push_nodes node s.pool.queue.nodes)
          ++ (in_hand s.threads ++ (s.finished ++ s.dropped)))
  unfolding known waiting
  add-Perm s node e i = rw e (
      Perm.trans (Perm.cons node.payload (rw (e, waiting) at i)) (
        Perm.append_right (in_hand s.threads ++ (s.finished ++ s.dropped))
          (Perm.map (λ n. n.payload) (push_nodes-perm node s.pool.queue.nodes))))

  pub take-Perm :
      (s : System J) (before behind : List (Thread J)) (work : Work J) (pool' : TPool J)
      (head : PrioNode (Work J)) (rest : List (PrioNode (Work J)))
      → s.threads ≡ before ++ ready ∷ behind
      → s.pool.stop ≡ false
      → pool'.stop ≡ false
      → s.pool.queue.nodes ≡ head ∷ rest
      → pool'.queue.nodes ≡ rest
      → head.payload ≡ work
      → Perm s.added (known s)
      → Perm s.added (
          waiting pool'.stop pool'.queue.nodes
          ++ (in_hand (before ++ running work ∷ behind) ++ (s.finished ++ s.dropped)))
  unfolding known waiting in_hand
  take-Perm s before behind work pool' head rest e st st' q q' w i =
      rw (st', q', in_hand-append before (running work ∷ behind))
        (Perm.trans (rw (e, st, q, w, waiting, in_hand-append before (ready ∷ behind)) at i) (
          put_in work (map (λ n. n.payload) rest) (in_hand before) (in_hand behind)
            (s.finished ++ s.dropped)))

  pub finish-Perm :
      (s : System J) (before behind : List (Thread J)) (work : Work J)
      → s.threads ≡ before ++ running work ∷ behind
      → Perm s.added (known s)
      → Perm s.added (
          waiting s.pool.stop s.pool.queue.nodes
          ++ (in_hand (before ++ ready ∷ behind) ++ (work ∷ s.finished ++ s.dropped)))
  unfolding known in_hand
  finish-Perm s before behind work e i = rw (in_hand-append before (ready ∷ behind)) (
      Perm.trans (rw (e, in_hand-append before (running work ∷ behind)) at i) (
        put_off work (waiting s.pool.stop s.pool.queue.nodes) (in_hand before) (in_hand behind)
          (s.finished ++ s.dropped)))

  pub leave-Perm :
      (s : System J) (before behind : List (Thread J))
      → s.threads ≡ before ++ ready ∷ behind
      → Perm s.added (known s)
      → Perm s.added (
          waiting s.pool.stop s.pool.queue.nodes
          ++ (in_hand (before ++ gone ∷ behind) ++ (s.finished ++ s.dropped)))
  unfolding known in_hand
  leave-Perm s before behind e i =
      rw (in_hand-append before (gone ∷ behind))
        (rw (e, in_hand-append before (ready ∷ behind)) at i)

  pub stop-Perm :
      (s : System J)
      → s.pool.stop ≡ false
      → Perm s.added (known s)
      → Perm s.added (
          in_hand s.threads
          ++ (s.finished ++ (map (λ n. n.payload) s.pool.queue.nodes ++ s.dropped)))
  unfolding known waiting
  stop-Perm s e i =
      let nodes = map (λ (n : PrioNode (Work J)). n.payload) s.pool.queue.nodes in
      Perm.trans (rw (e, waiting) at i) (
        Perm.trans (swap_front nodes (in_hand s.threads) (s.finished ++ s.dropped))
          (Perm.append_left (in_hand s.threads) (swap_front nodes s.finished s.dropped)))

  pub alive-swap :
      (before behind : List (Thread J)) (t t' : Thread J) (n : ℕ)
      → alive (t ∷ behind) ≡ alive (t' ∷ behind) + n
      → alive (before ++ t ∷ behind) ≡ alive (before ++ t' ∷ behind) + n
  alive-swap before behind t t' n e =
      omega (arith, e, alive-append before (t ∷ behind), alive-append before (t' ∷ behind))
