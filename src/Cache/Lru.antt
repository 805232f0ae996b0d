-- ===== src/Cache/Lru.antt =====
-- While no structure is stored under an ID that the cache knows, a cache is the LRU cache of `Spec`.
use disco_c.Prelude.{
  ℕ, ◌≤◌, ◌<◌, ◌≡◌, refl, sym, ap, ◌∙◌, subst, ◌≢◌, inl, inr, Option, none, some, List, [], ◌∷◌,
  map, arith, All,
}
use native.Mathlib.Decide.{ℕ_discrete}
use mathlib.Core.List.{map-append}
use mathlib.Core.Option
use disco_c.Cache.Defs.{
  HashMap, IsHashMap, Node, Cache, unlink, move_to_tail, delete_node, cache_delete, cache_get,
}
use disco_c.Cache.Queue.{In, Avoids, IsDistinct, All-In, All-append, All-unlink, Avoids-unlink}
use disco_c.Cache.Invariant.{IsWellFormed, cache_delete-IsWellFormed, cache_get-IsWellFormed}
use disco_c.Cache.Spec.{lookup, without, put_last, use_entry}

abbrev pub entries : {D : Type 0} → List (Node D) → List (ℕ × D)
entries = map (λ n. (n.alloc_id, n.payload))

module _ {D : Type 0} (h : HashMap (Node D)) where
  abbrev pub IsCurrent : h.Table → Node D → Type 0
  IsCurrent map n = h.get map n.alloc_id ≡ some n

  -- A well-formed cache all of whose nodes the map leads to.
  pub record IsExact (id_of : D → ℕ) (c : Cache h) : Type 0 where
    pub well : IsWellFormed h id_of c
    pub current : All (IsCurrent c.map) c.queue

  -- Such a cache within its limit.
  pub record IsLru (id_of : D → ℕ) (c : Cache h) : Type 0 where
    pub exact : IsExact id_of c
    pub open exact use *
    pub room : 1 < c.max_size
    pub bounded : c.size ≤ c.max_size

  lookup_miss :
      (map : h.Table) (id : ℕ) (q : List (Node D))
      → All (IsCurrent map) q
      → h.get map id ≡ none
      → lookup id (entries q) ≡ none
  unfolding lookup
  lookup_miss map id [] a e = refl
  lookup_miss map id (m ∷ rest) a e = elim (ℕ_discrete m.alloc_id id) [
    | yes s ↦ absurd (ground (arith, a.0))
    | no d ↦ ground (arith, lookup_miss map id rest a.1 e)
  ]

  lookup_hit :
      (map : h.Table) (n : Node D) (q : List (Node D))
      → IsDistinct q
      → All (IsCurrent map) q
      → In n q
      → (lookup n.alloc_id (entries q) ≡ some n.payload)
        × (without n.alloc_id (entries q) ≡ entries (unlink n.addr q))
  unfolding lookup without unlink
  lookup_hit map n [] d a i = absurd i
  lookup_hit map n (m ∷ rest) d a (inl e) = ground (arith, ap (λ (x : Node D). x.alloc_id) e)
  lookup_hit map n (m ∷ rest) d a (inr i) =
      let other : n.addr ≢ m.addr = All-In (λ k. k.addr ≢ m.addr) rest d.0 i in
      let here : h.get map n.alloc_id ≡ some n = All-In (IsCurrent map) rest a.1 i in
      let later = lookup_hit map n rest d.1 a.1 i in
      elim (ℕ_discrete m.alloc_id n.alloc_id) [
        | yes s ↦ absurd (other (ground (arith, a.0)))
        | no ne ↦ ground (arith, later)
      ]

module _ {D : Type 0} (h : HashMap (Node D)) (laws : IsHashMap h) (id_of : D → ℕ) where
  -- The node that the map gives for an ID is the entry that the list has for it.
  pub found :
      (c : Cache h) (id : ℕ) (n : Node D)
      → IsExact h id_of c
      → h.get c.map id ≡ some n
      → (lookup id (entries c.queue) ≡ some n.payload)
        × (without id (entries c.queue) ≡ entries (unlink n.addr c.queue))
        × (n.alloc_id ≡ id)
        × In n c.queue
  found c id n lru e =
      let (i, s) = lru.well.mapped id n e in
      let (l, w) = lookup_hit h c.map n c.queue lru.well.distinct lru.current i in
      (
        subst (λ x. lookup x (entries c.queue) ≡ some n.payload) s l,
        subst (λ x. without x (entries c.queue) ≡ entries (unlink n.addr c.queue)) s w,
        s,
        i,
      )

  abbrev Used : Cache h → ℕ → Option (Node D) → Type 0
  Used c id o =
      (entries (move_to_tail h id_of o c.queue)
        ≡ put_last id (lookup id (entries c.queue)) (entries c.queue))
      × (Option.map (λ n. n.payload) o ≡ lookup id (entries c.queue))
      × All (IsCurrent h c.map) (move_to_tail h id_of o c.queue)

  used :
      (c : Cache h) (id : ℕ) (o : Option (Node D))
      → IsExact h id_of c
      → h.get c.map id ≡ o
      → Used c id o
  unfolding move_to_tail put_last
  used c id none lru e =
      let m = lookup_miss h c.map id c.queue lru.current e in (rw m, rw m, lru.current)
  used c id (some n) lru e =
      let (l, w, s, i) = found c id n lru e in
      (
        rw (l, w, map-append, s) refl,
        sym l,
        All-append (IsCurrent h c.map) (unlink n.addr c.queue) (n ∷ [])
            (All-unlink (IsCurrent h c.map) n.addr c.queue lru.current)
            (All-In (IsCurrent h c.map) c.queue lru.current i, tt),
      )

  -- A lookup gives what the list of entries has for the ID, and makes that entry, if there is one,
  -- the most recently used; the cache stays within its limit and has no stale node.
  pub cache_get-refines :
      (c : Cache h) (id : ℕ)
      → IsLru h id_of c
      → ((cache_get h id_of id c).1 ≡ lookup id (entries c.queue))
        × (entries (cache_get h id_of id c).0.queue ≡ use_entry id (entries c.queue))
        × IsLru h id_of (cache_get h id_of id c).0
  unfolding cache_get use_entry
  cache_get-refines c id lru =
      let (q, r, a) = used c id (h.get c.map id) lru.exact refl in
      (
        r,
        q,
        record {
          exact = record { well = cache_get-IsWellFormed h laws id_of id c lru.well; current = a };
          room = lru.room;
          bounded = lru.bounded;
        },
      )

  without_absent : (id : ℕ) (l : List (ℕ × D)) → lookup id l ≡ none → without id l ≡ l
  unfolding lookup without
  without_absent id [] e = refl
  without_absent id ((j, d) ∷ l) e = ground (arith, without_absent id l)

  removed-IsCurrent :
      (c : Cache h) (id : ℕ) (n : Node D) (q : List (Node D))
      → h.get c.map id ≡ some n
      → All (IsCurrent h c.map) q
      → Avoids n.addr q
      → All (IsCurrent h (h.remove c.map id)) q
  removed-IsCurrent c id n [] e a v = tt
  removed-IsCurrent c id n (m ∷ rest) e a v = elim (ℕ_discrete id m.alloc_id) [
    | yes s ↦ absurd (v.0 (ground (arith, a.0)))
    | no d ↦
        (laws.get-remove_ne c.map id m.alloc_id d ∙ a.0, removed-IsCurrent c id n rest e a.1 v.1)
  ]

  abbrev pub Deleted : Cache h → ℕ → Cache h → Type 0
  Deleted c id c' =
      (entries c'.queue ≡ without id (entries c.queue))
      × All (IsCurrent h c'.map) c'.queue
      × (c'.size ≤ c.size)
      × (c'.max_size ≡ c.max_size)

  pub delete_node-Deleted :
      (c : Cache h) (id : ℕ) (o : Option (Node D))
      → IsExact h id_of c
      → h.get c.map id ≡ o
      → Deleted c id (delete_node h id_of o id c)
  unfolding delete_node
  delete_node-Deleted c id none lru e = (
    sym (without_absent id (entries c.queue) (lookup_miss h c.map id c.queue lru.current e)),
    lru.current,
    omega arith,
    refl,
  )
  delete_node-Deleted c id (some n) lru e =
      let (l, w, s, i) = found c id n lru e in
      (
        sym w,
        removed-IsCurrent c id n (unlink n.addr c.queue) e
            (All-unlink (IsCurrent h c.map) n.addr c.queue lru.current)
            (Avoids-unlink n.addr c.queue lru.well.distinct),
        omega arith,
        refl,
      )

  -- A deletion takes the entry of the ID, if there is one, out of the list of entries, and leaves the
  -- others in their order; the cache stays within its limit and has no stale node.
  pub cache_delete-refines :
      (c : Cache h) (id : ℕ)
      → IsLru h id_of c
      → (entries (cache_delete h id_of id c).queue ≡ without id (entries c.queue))
        × IsLru h id_of (cache_delete h id_of id c)
  unfolding cache_delete
  cache_delete-refines c id lru =
      let (q, a, le, m) = delete_node-Deleted c id (h.get c.map id) lru.exact refl in
      (
        q,
        record {
          exact = record {
            well = cache_delete-IsWellFormed h laws id_of id c lru.well;
            current = a;
          };
          room = rw m lru.room;
          bounded = omega (arith, le, m, lru.bounded);
        },
      )

  pub cache_get-limit : (c : Cache h) (id : ℕ) → (cache_get h id_of id c).0.max_size ≡ c.max_size
  unfolding cache_get
  cache_get-limit c id = refl

  pub cache_delete-limit :
      (c : Cache h) (id : ℕ) → (cache_delete h id_of id c).max_size ≡ c.max_size
  unfolding cache_delete delete_node
  cache_delete-limit c id = ground arith
