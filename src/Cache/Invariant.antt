-- ===== src/Cache/Invariant.antt =====
-- What every operation of one cache keeps, as long as `hashmap_put` succeeds.
use disco_c.Prelude.{
  ℕ, zero, suc, ◌+◌, ◌-◌, ◌≤◌, ◌<◌, ◌≡◌, refl, sym, ◌∙◌, subst, ◌≢◌, inl, inr, true, false, Option,
  none, some, List, [], ◌∷◌, ◌++◌, map, arith, length, length-append, All, ltb, Bool-cases,
}
use native.Mathlib.Decide.{ℕ_discrete}
use disco_c.Cache.Defs.{
  HashMap, IsHashMap, Node, Cache, unlink, move_to_tail, delete_node, cache_delete, cache_get,
  evict, new_node, inserted, insert_failed, trim, cache_set,
}
use disco_c.Cache.Queue.{
  In, IsDistinct, All-In, All-mono, All-append, All-unlink, In-append_left, In-append_right,
  In-unlink, length-unlink, IsDistinct-unlink, Avoids-unlink, IsDistinct-append, eq_of_addr,
}

module _ {D : Type 0} (h : HashMap (Node D)) (id_of : D → ℕ) where
  -- What a lookup in the map says of the queue.
  abbrev pub IsMapped : h.Table → List (Node D) → Type 0
  IsMapped map queue =
      (id : ℕ) (n : Node D) → h.get map id ≡ some n → In n queue × (n.alloc_id ≡ id)

  abbrev pub IsKeyed : Node D → Type 0
  IsKeyed n = n.alloc_id ≡ id_of n.payload

  -- The counter is the length of the queue, no two nodes share an address, each node has the ID of
  -- its structure, and the map leads to nodes of the queue only, each under its own ID.
  pub record IsWellFormed (c : Cache h) : Type 0 where
    pub counted : c.size ≡ length c.queue
    pub fresh : All (λ n. n.addr < c.next_addr) c.queue
    pub distinct : IsDistinct c.queue
    pub keyed : All IsKeyed c.queue
    pub mapped : IsMapped c.map c.queue

module _ {D : Type 0} (h : HashMap (Node D)) (laws : IsHashMap h) (id_of : D → ℕ) where
  delete_node-IsWellFormed :
      (o : Option (Node D)) (id : ℕ) (c : Cache h)
      → h.get c.map id ≡ o
      → IsWellFormed h id_of c
      → IsWellFormed h id_of (delete_node h id_of o id c)
  unfolding delete_node
  delete_node-IsWellFormed none id c e w = w
  delete_node-IsWellFormed (some n) id c e w = record {
    counted = omega (arith, length-unlink n c.queue (w.mapped id n e).0, w.counted);
    fresh = All-unlink (λ m. m.addr < c.next_addr) n.addr c.queue w.fresh;
    distinct = IsDistinct-unlink n.addr c.queue w.distinct;
    keyed = All-unlink (IsKeyed h id_of) n.addr c.queue w.keyed;
    mapped = remaining;
  }
    where
      apart : (j : ℕ) (m : Node D) → id ≢ j → h.get c.map j ≡ some m → m.addr ≢ n.addr
      apart j m d k a =
          let i = w.mapped id n e in
          let i' = w.mapped j m k in
          d (cc (i.1, i'.1, eq_of_addr m n c.queue w.distinct i'.0 i.0 a))

      remaining : IsMapped h id_of (h.remove c.map id) (unlink n.addr c.queue)
      remaining j m k = elim (ℕ_discrete id j) [
        | yes s ↦ absurd (ground (arith, laws.get-remove_self c.map id))
        | no d ↦
            let k' : h.get c.map j ≡ some m = sym (laws.get-remove_ne c.map id j d) ∙ k in
            (In-unlink m n.addr c.queue (apart j m d k') (w.mapped j m k').0, (w.mapped j m k').1)
      ]

  -- Deleting an ID, known or not, keeps the cache well-formed.
  pub cache_delete-IsWellFormed :
      (id : ℕ) (c : Cache h)
      → IsWellFormed h id_of c
      → IsWellFormed h id_of (cache_delete h id_of id c)
  unfolding cache_delete
  cache_delete-IsWellFormed id c w = delete_node-IsWellFormed (h.get c.map id) id c refl w

  move_to_tail-IsWellFormed :
      (o : Option (Node D)) (id : ℕ) (c : Cache h)
      → h.get c.map id ≡ o
      → IsWellFormed h id_of c
      → IsWellFormed h id_of (record c { queue = move_to_tail h id_of o c.queue })
  unfolding move_to_tail
  move_to_tail-IsWellFormed none id c e w = w
  move_to_tail-IsWellFormed (some n) id c e w = record {
    counted = omega (
      arith,
      length-unlink n c.queue present,
      length-append {0} (unlink n.addr c.queue) (n ∷ []),
      w.counted,
    );
    fresh = moved (λ m. m.addr < c.next_addr) w.fresh;
    distinct =
        IsDistinct-append _ n (IsDistinct-unlink n.addr c.queue w.distinct)
          (Avoids-unlink n.addr c.queue w.distinct);
    keyed = moved (IsKeyed h id_of) w.keyed;
    mapped = λ j m k. (still m (w.mapped j m k).0, (w.mapped j m k).1);
  }
    where
      present : In n c.queue
      present = (w.mapped id n e).0

      moved : (P : Node D → Type 0) → All P c.queue → All P (unlink n.addr c.queue ++ n ∷ [])
      moved P a =
          All-append P (unlink n.addr c.queue) (n ∷ []) (All-unlink P n.addr c.queue a)
            (All-In P c.queue a present, tt)

      still : (m : Node D) → In m c.queue → In m (unlink n.addr c.queue ++ n ∷ [])
      still m i = elim (ℕ_discrete m.addr n.addr) [
        | yes s ↦
            In-append_right m (unlink n.addr c.queue) (n ∷ [])
              (inl (eq_of_addr m n c.queue w.distinct i present s))
        | no d ↦ In-append_left m _ (n ∷ []) (In-unlink m n.addr c.queue d i)
      ]

  -- A lookup, hit or miss, keeps the cache well-formed.
  pub cache_get-IsWellFormed :
      (id : ℕ) (c : Cache h)
      → IsWellFormed h id_of c
      → IsWellFormed h id_of (cache_get h id_of id c).0
  unfolding cache_get
  cache_get-IsWellFormed id c w = move_to_tail-IsWellFormed (h.get c.map id) id c refl w

  -- A structure that `hashmap_put` takes, under a new ID or a known one, keeps the cache well-formed.
  pub inserted-IsWellFormed :
      (cont : D) (c : Cache h)
      → (h.put c.map (id_of cont) (new_node h id_of c cont)).1 ≡ true
      → IsWellFormed h id_of c
      → IsWellFormed h id_of (inserted h id_of c cont)
  unfolding inserted new_node
  inserted-IsWellFormed cont c put_ok w = record {
    counted = omega (arith, w₁.counted, length-append {0} queue (node ∷ []));
    fresh =
        All-append _ queue (node ∷ [])
          (All-mono (λ m. m.addr < c.next_addr) (λ m. m.addr < suc c.next_addr) queue
            (λ m lt. omega arith) w₁.fresh)
          (omega arith, tt);
    distinct = IsDistinct-append queue node w₁.distinct (
        All-mono (λ m. m.addr < c.next_addr) (λ m. m.addr ≢ c.next_addr) queue (λ m lt. omega arith)
          w₁.fresh);
    keyed = All-append (IsKeyed h id_of) queue (node ∷ []) w₁.keyed (refl, tt);
    mapped = after;
  }
    where
      node : Node D
      node = new_node h id_of c cont

      queue : List (Node D)
      queue = move_to_tail h id_of (h.get c.map (id_of cont)) c.queue

      w₁ : IsWellFormed h id_of (record c { queue = queue })
      w₁ = move_to_tail-IsWellFormed (h.get c.map (id_of cont)) (id_of cont) c refl w

      after : IsMapped h id_of (h.put c.map (id_of cont) node).0 (queue ++ node ∷ [])
      after j m k = elim (ℕ_discrete (id_of cont) j) [
        | yes s ↦
            let e : some node ≡ some m =
              sym (laws.get-put_self c.map (id_of cont) node put_ok)
              ∙ subst (λ x. h.get (h.put c.map (id_of cont) node).0 x ≡ some m) (sym s) k in
            (In-append_right m queue (node ∷ []) (inl (cc e)), cc (e, s))
        | no d ↦
            let k' : h.get c.map j ≡ some m =
              sym (laws.get-put_ne c.map (id_of cont) node j put_ok d) ∙ k in
            (In-append_left m queue (node ∷ []) (w₁.mapped j m k').0, (w₁.mapped j m k').1)
      ]

  delete_node-size :
      (o : Option (Node D)) (id : ℕ) (c : Cache h) → c.size ≤ (delete_node h id_of o id c).size + 1
  unfolding delete_node
  delete_node-size none id c = omega arith
  delete_node-size (some n) id c = omega arith

  pub cache_delete-size : (id : ℕ) (c : Cache h) → c.size ≤ (cache_delete h id_of id c).size + 1
  unfolding cache_delete
  cache_delete-size id c = delete_node-size (h.get c.map id) id c

  evict_step :
      (i : ℕ) (c : Cache h) (q : List (Node D))
      → c.queue ≡ q
      → length q ≢ 0
      → (n : Node D) × (evict h id_of (suc i) c
          ≡ evict h id_of i (cache_delete h id_of (id_of n.payload) c))
  unfolding evict
  evict_step i c [] e k = absurd (k refl)
  evict_step i c (n ∷ rest) e k = (n, simp (e, evict))

  -- The loop that evicts never reads through an empty queue, and keeps the cache well-formed.
  pub evict-IsWellFormed :
      (i : ℕ) (c : Cache h)
      → i ≤ c.size
      → IsWellFormed h id_of c
      → (c' : Cache h) × (evict h id_of i c ≡ some c') × IsWellFormed h id_of c'
  unfolding evict
  evict-IsWellFormed zero c le w = (c, refl, w)
  evict-IsWellFormed (suc i) c le w =
      let (n, e) = evict_step i c c.queue refl (omega (arith, w.counted)) in
      let id = id_of n.payload in
      let (c', e', w') =
        evict-IsWellFormed i (cache_delete h id_of id c) (omega (arith, cache_delete-size id c))
          (cache_delete-IsWellFormed id c w) in
      (c', e ∙ e', w')

  trim-IsWellFormed :
      (c : Cache h)
      → IsWellFormed h id_of c
      → (c' : Cache h) × (trim h id_of c ≡ some c') × IsWellFormed h id_of c'
  unfolding trim
  trim-IsWellFormed c w = elim (Bool-cases (ltb c.max_size c.size)) [
    | inl e ↦ rw e (evict-IsWellFormed (c.size - c.max_size) c (omega arith) w)
    | inr e ↦ rw e (c, refl, w)
  ]

  -- If `hashmap_put` succeeds, `discord_cache_set` never reads through an empty queue, returns 0, and
  -- keeps the cache well-formed, whether the ID is new or known and whether entries are evicted or not.
  pub cache_set-IsWellFormed :
      (cont : D) (c : Cache h)
      → (h.put c.map (id_of cont) (new_node h id_of c cont)).1 ≡ true
      → IsWellFormed h id_of c
      → (c' : Cache h) × (cache_set h id_of cont c ≡ some (c', 0)) × IsWellFormed h id_of c'
  unfolding cache_set
  cache_set-IsWellFormed cont c put_ok w =
      let (c', e, w') =
        trim-IsWellFormed (inserted h id_of c cont) (inserted-IsWellFormed cont c put_ok w) in
      (c', rw (put_ok, e), w')

  -- If `hashmap_put` fails, the call returns 1 and the counter is from then on one above the number of
  -- nodes in the queue.
  pub cache_set_failed :
      (cont : D) (c : Cache h)
      → (h.put c.map (id_of cont) (new_node h id_of c cont)).1 ≡ false
      → IsWellFormed h id_of c
      → (c' : Cache h) × (cache_set h id_of cont c ≡ some (c', 1)) × (c'.size ≡ length c'.queue + 1)
  unfolding cache_set insert_failed
  cache_set_failed cont c failed w = (
    insert_failed h id_of c cont,
    rw failed refl,
    omega (
      arith,
      (move_to_tail-IsWellFormed (h.get c.map (id_of cont)) (id_of cont) c refl w).counted,
    ),
  )
