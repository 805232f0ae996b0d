-- ===== src/Cache/Stale.antt =====
-- What becomes of the node of an earlier version, which `discord_cache_set` leaves in the queue.
use disco_c.Prelude.{
  ℕ, zero, suc, ◌+◌, ◌-◌, ◌<◌, ◌≡◌, refl, sym, ap, ◌∙◌, ◌≢◌, inl, true, Option, none, some, List,
  [], ◌∷◌, ◌++◌, arith, length, All,
}
use disco_c.Cache.Defs.{
  HashMap, IsHashMap, Node, Cache, unlink, move_to_tail, delete_node, cache_delete, evict, new_node,
  inserted, trim, cache_set,
}
use disco_c.Cache.Queue.{In, eq_of_addr}
use disco_c.Cache.Invariant.{IsKeyed, IsWellFormed, inserted-IsWellFormed}

module _ {D : Type 0} (h : HashMap (Node D)) (id_of : D → ℕ) where
  -- The oldest node is of an earlier version: the map leads from its ID to the node `latest`.
  pub record IsStale (c : Cache h) (first latest : Node D) (rest : List (Node D)) : Type 0 where
    pub oldest : c.queue ≡ first ∷ rest
    pub newer : h.get c.map (id_of first.payload) ≡ some latest
    pub other : first.addr ≢ latest.addr

  -- The oldest node is one that the map does not know any more.
  pub record IsStuck (c : Cache h) (first : Node D) : Type 0 where
    pub rest : List (Node D)
    pub oldest : c.queue ≡ first ∷ rest
    pub unknown : h.get c.map (id_of first.payload) ≡ none

  -- `discord_cache_set` on each of the structures; `none` if a call read through NULL.
  unfoldable pub set_all : List D → Cache h → Option (Cache h)
  set_all [] c = some c
  set_all (d ∷ ds) c = elim (cache_set h id_of d c) [ none ↦ none | some (c', _) ↦ set_all ds c' ]

module _ {D : Type 0} (h : HashMap (Node D)) (laws : IsHashMap h) (id_of : D → ℕ) where
  -- Storing a structure under an ID that the map knows, below the limit: the node of the earlier
  -- version stays in the queue, right before the new one, its structure is not destroyed, and the map
  -- leads to the new one only.
  cache_set_known :
      (c : Cache h) (cont : D) (old : Node D)
      → (h.put c.map (id_of cont) (new_node h id_of c cont)).1 ≡ true
      → h.get c.map (id_of cont) ≡ some old
      → c.size < c.max_size
      → (c' : Cache h) × (cache_set h id_of cont c ≡ some (c', 0))
        × (c'.queue ≡ (unlink old.addr c.queue ++ old ∷ []) ++ new_node h id_of c cont ∷ [])
        × (c'.destroyed ≡ c.destroyed)
        × (h.get c'.map (id_of cont) ≡ some (new_node h id_of c cont))
  unfolding cache_set trim inserted move_to_tail
  cache_set_known c cont old put_ok known below = (
    inserted h id_of c cont,
    rw put_ok (ground arith),
    rw known,
    refl,
    laws.get-put_self c.map (id_of cont) _ put_ok,
  )

  -- Evicting by a stale node destroys the latest version of the structure in its place; the stale node
  -- stays the oldest, and the map forgets its ID.
  pub cache_delete_stale :
      (c : Cache h) (first latest : Node D) (rest : List (Node D))
      → IsStale h id_of c first latest rest
      → let c' = cache_delete h id_of (id_of first.payload) c in
        (c'.queue ≡ first ∷ unlink latest.addr rest)
        × (c'.destroyed ≡ latest.payload ∷ c.destroyed)
        × IsStuck h id_of c' first
  unfolding cache_delete delete_node unlink
  cache_delete_stale c first latest rest s = (
    ground (arith, s.oldest, s.newer, s.other),
    ground (arith, s.newer),
    record {
      rest = unlink latest.addr rest;
      oldest = ground (arith, s.oldest, s.newer, s.other);
      unknown = rw (s.newer, delete_node) (laws.get-remove_self c.map (id_of first.payload));
    },
  )

  cache_delete_stuck :
      (c : Cache h) (first : Node D)
      → IsStuck h id_of c first
      → cache_delete h id_of (id_of first.payload) c ≡ c
  unfolding cache_delete delete_node
  cache_delete_stuck c first s = ground (arith, s.unknown)

  -- Then the loop that evicts removes nothing, however often it runs.
  pub evict_stuck :
      (i : ℕ) (c : Cache h) (first : Node D) → IsStuck h id_of c first → evict h id_of i c ≡ some c
  unfolding evict
  evict_stuck zero c first s = refl
  evict_stuck (suc i) c first s =
      simp (s.oldest, evict)
        (ap (evict h id_of i) (cache_delete_stuck c first s) ∙ evict_stuck i c first s)

  move_to_tail_behind :
      (o : Option (Node D)) (first : Node D) (rest : List (Node D))
      → ((n : Node D) → o ≡ some n → first.addr ≢ n.addr)
      → move_to_tail h id_of o (first ∷ rest) ≡ first ∷ move_to_tail h id_of o rest
  unfolding move_to_tail unlink
  move_to_tail_behind none first rest k = refl
  move_to_tail_behind (some n) first rest k = ground (arith, k n refl)

  not_first :
      (c : Cache h) (first : Node D) (rest : List (Node D)) (id : ℕ) (n : Node D)
      → IsWellFormed h id_of c
      → c.queue ≡ first ∷ rest
      → id_of first.payload ≢ id
      → h.get c.map id ≡ some n
      → first.addr ≢ n.addr
  not_first c first rest id n w e d k a =
      let (i, s) = w.mapped id n k in
      let at_head : In first c.queue = rw e (inl refl) in
      let keyed : IsKeyed h id_of first = (rw e at w.keyed).0 in
      d (
        sym keyed
        ∙ ap (λ (x : Node D). x.alloc_id) (eq_of_addr first n c.queue w.distinct at_head i a)
        ∙ s)

  inserted-IsStuck :
      (c : Cache h) (first : Node D) (cont : D)
      → (h.put c.map (id_of cont) (new_node h id_of c cont)).1 ≡ true
      → id_of first.payload ≢ id_of cont
      → IsWellFormed h id_of c
      → IsStuck h id_of c first
      → IsStuck h id_of (inserted h id_of c cont) first
  unfolding inserted
  inserted-IsStuck c first cont put_ok d w s = record {
    rest = move_to_tail h id_of (h.get c.map (id_of cont)) s.rest ++ new_node h id_of c cont ∷ [];
    oldest =
        ap (λ q. q ++ new_node h id_of c cont ∷ [])
          (ap (move_to_tail h id_of (h.get c.map (id_of cont))) s.oldest
            ∙ move_to_tail_behind (h.get c.map (id_of cont)) first s.rest
                (λ n k. not_first c first s.rest (id_of cont) n w s.oldest d k));
    unknown =
        laws.get-put_ne c.map (id_of cont) _ (id_of first.payload) put_ok (λ e. d (sym e))
        ∙ s.unknown;
  }

  trim_stuck : (c : Cache h) (first : Node D) → IsStuck h id_of c first → trim h id_of c ≡ some c
  unfolding trim
  trim_stuck c first s = ground (arith, evict_stuck (c.size - c.max_size) c first s)

  cache_set_stuck :
      (c : Cache h) (first : Node D) (d : D)
      → (h.put c.map (id_of d) (new_node h id_of c d)).1 ≡ true
      → IsStuck h id_of (inserted h id_of c d) first
      → cache_set h id_of d c ≡ some (inserted h id_of c d, 0)
  unfolding cache_set
  cache_set_stuck c first d put_ok s = rw (put_ok, trim_stuck (inserted h id_of c d) first s)

  -- Once the oldest node is one that the map does not know, storing any structures under other IDs, on
  -- a hash table that never fails, destroys nothing and makes the cache longer by one with each call,
  -- whatever its limit is.
  pub set_all_stuck :
      (put_succeeds : (t : h.Table) (k : ℕ) (v : Node D) → (h.put t k v).1 ≡ true) (ds : List D)
      (c : Cache h) (first : Node D)
      → All (λ d. id_of first.payload ≢ id_of d) ds
      → IsWellFormed h id_of c
      → IsStuck h id_of c first
      → (c' : Cache h) × (set_all h id_of ds c ≡ some c')
        × (c'.size ≡ c.size + length ds)
        × (c'.destroyed ≡ c.destroyed)
        × (c'.max_size ≡ c.max_size)
  unfolding set_all inserted
  set_all_stuck put_succeeds [] c first others w s = (c, refl, omega arith, refl, refl)
  set_all_stuck put_succeeds (d ∷ ds) c first others w s =
      let put_ok = put_succeeds c.map (id_of d) (new_node h id_of c d) in
      let s₁ = inserted-IsStuck c first d put_ok others.0 w s in
      let (c', e, n, q, m) =
        set_all_stuck put_succeeds ds (inserted h id_of c d) first others.1
          (inserted-IsWellFormed h laws id_of d c put_ok w) s₁ in
      (c', rw (cache_set_stuck c first d put_ok s₁, set_all) e, n ∙ omega arith, q, m)
