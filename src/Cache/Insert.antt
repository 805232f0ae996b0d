-- ===== src/Cache/Insert.antt =====
-- `discord_cache_set` on an ID that the cache does not know.
use disco_c.Prelude.{
  ℕ, suc, ◌+◌, ◌-◌, ◌≡◌, refl, sym, ap, ◌∙◌, subst, inl, inr, true, false, none, some, List, [],
  ◌∷◌, ◌++◌, arith, length, All, ltb, ltb→lt, Bool-cases,
}
use native.Mathlib.Decide.{ℕ_discrete}
use mathlib.Core.List.{map-append}
use disco_c.Cache.Defs.{
  HashMap, IsHashMap, Node, Cache, unlink, move_to_tail, delete_node, cache_delete, evict, new_node,
  inserted, trim, cache_set,
}
use disco_c.Cache.Queue.{All-append}
use disco_c.Cache.Invariant.{cache_delete-IsWellFormed, inserted-IsWellFormed}
use disco_c.Cache.Spec.{add_entry, dropped}
use disco_c.Cache.Lru.{entries, IsCurrent, IsExact, IsLru, delete_node-Deleted}

length-entries : {D : Type 0} (q : List (Node D)) → length (entries q) ≡ length q
length-entries [] = refl
length-entries (n ∷ rest) = ap suc (length-entries rest)

-- `c'` is what the specification says that storing `cont` under a new ID makes of `c`.
pub record Adds {D : Type 0} (h : HashMap (Node D)) (id_of : D → ℕ) (cont : D) (c c' : Cache h)
    : Type 0 where
  pub added : entries c'.queue ≡ add_entry c.max_size (id_of cont) cont (entries c.queue)
  pub dropping : c'.destroyed ≡ dropped c.max_size (entries c.queue) ++ c.destroyed
  pub limit : c'.max_size ≡ c.max_size
  pub lru : IsLru h id_of c'

module _ {D : Type 0} (h : HashMap (Node D)) (laws : IsHashMap h) (id_of : D → ℕ) where
  -- The oldest node of an exact cache goes, and nothing else.
  record Evicts (c : Cache h) (first : Node D) (rest : List (Node D)) (c' : Cache h) : Type 0 where
    queue : c'.queue ≡ rest
    destroyed : c'.destroyed ≡ first.payload ∷ c.destroyed
    size : c'.size ≡ c.size - 1
    limit : c'.max_size ≡ c.max_size
    exact : IsExact h id_of c'

  oldest :
      (c : Cache h) (first : Node D) (rest : List (Node D))
      → IsExact h id_of c
      → c.queue ≡ first ∷ rest
      → (h.get c.map first.alloc_id ≡ some first) × (first.alloc_id ≡ id_of first.payload)
  oldest c first rest x e = ((rw e at x.current).0, (rw e at x.well.keyed).0)

  evict_oldest :
      (c : Cache h) (first : Node D) (rest : List (Node D))
      → IsExact h id_of c
      → c.queue ≡ first ∷ rest
      → Evicts c first rest (cache_delete h id_of (id_of first.payload) c)
  unfolding cache_delete delete_node unlink
  evict_oldest c first rest x e =
      let (k, s) = oldest c first rest x e in
      let id = id_of first.payload in
      let k' : h.get c.map id ≡ some first = subst (λ j. h.get c.map j ≡ some first) s k in
      let (_, a, _, m) = delete_node-Deleted h laws id_of c id (h.get c.map id) x refl in
      record {
        queue = ground (arith, k');
        destroyed = ground (arith, k');
        size = ground (arith, k');
        limit = m;
        exact = record { well = cache_delete-IsWellFormed h laws id_of id c x.well; current = a };
      }

  evict_one :
      (c : Cache h) (first : Node D) (rest : List (Node D))
      → c.queue ≡ first ∷ rest
      → evict h id_of 1 c ≡ some (cache_delete h id_of (id_of first.payload) c)
  unfolding evict
  evict_one c first rest e = simp (e, evict)

  -- Where the new structure goes when the cache does not know its ID.
  module _ (c : Cache h) (cont : D) (lru : IsLru h id_of c)
      (put_ok : (h.put c.map (id_of cont) (new_node h id_of c cont)).1 ≡ true)
      (unknown : h.get c.map (id_of cont) ≡ none) where
    inserted-queue : (inserted h id_of c cont).queue ≡ c.queue ++ new_node h id_of c cont ∷ []
    unfolding inserted move_to_tail
    inserted-queue = rw unknown

    kept-IsCurrent :
        (q : List (Node D))
        → All (IsCurrent h c.map) q
        → All (IsCurrent h (h.put c.map (id_of cont) (new_node h id_of c cont)).0) q
    kept-IsCurrent [] a = tt
    kept-IsCurrent (m ∷ rest) a = elim (ℕ_discrete (id_of cont) m.alloc_id) [
      | yes s ↦ absurd (ground (arith, a.0, unknown))
      | no d ↦
          (laws.get-put_ne c.map (id_of cont) _ m.alloc_id put_ok d ∙ a.0, kept-IsCurrent rest a.1)
    ]

    inserted-IsExact : IsExact h id_of (inserted h id_of c cont)
    unfolding inserted new_node
    inserted-IsExact = record {
      well = inserted-IsWellFormed h laws id_of cont c put_ok lru.well;
      current = rw inserted-queue (
          All-append (IsCurrent h _) c.queue (new_node h id_of c cont ∷ [])
            (kept-IsCurrent c.queue lru.current)
            (laws.get-put_self c.map (id_of cont) _ put_ok, tt));
    }

    fits-Adds : ltb c.max_size (c.size + 1) ≡ false → Adds h id_of cont c (inserted h id_of c cont)
    unfolding inserted new_node add_entry dropped move_to_tail
    fits-Adds e =
        let n : length (entries c.queue) ≡ c.size = length-entries c.queue ∙ sym lru.well.counted in
        record {
          added = rw (unknown, n, e) (map-append _ c.queue (new_node h id_of c cont ∷ []));
          dropping = rw (n, e);
          limit = refl;
          lru = record { exact = inserted-IsExact; room = lru.room; bounded = ground arith };
        }

    full-Adds :
        (first : Node D) (rest : List (Node D))
        → c.queue ≡ first ∷ rest
        → ltb c.max_size (c.size + 1) ≡ true
        → Adds h id_of cont c (cache_delete h id_of (id_of first.payload) (inserted h id_of c cont))
    unfolding inserted new_node add_entry dropped
    full-Adds first rest e full =
        let n : length (entries c.queue) ≡ c.size = length-entries c.queue ∙ sym lru.well.counted in
        let ev : Evicts (inserted h id_of c cont) first (rest ++ new_node h id_of c cont ∷ []) _ =
          evict_oldest (inserted h id_of c cont) first _ inserted-IsExact
            (inserted-queue ∙ ap (λ q. q ++ new_node h id_of c cont ∷ []) e) in
        record {
          added =
              ap entries ev.queue
              ∙ map-append _ rest (new_node h id_of c cont ∷ [])
              ∙ sym full_entry;
          dropping = ev.destroyed ∙ rw (n, full, e) refl;
          limit = ev.limit;
          lru = record {
            exact = ev.exact;
            room = rw ev.limit lru.room;
            bounded = omega (arith, ev.size, ev.limit, lru.bounded);
          };
        }
      where
        full_entry :
            add_entry c.max_size (id_of cont) cont (entries c.queue)
            ≡ entries rest ++ (id_of cont, cont) ∷ []
        full_entry = rw (length-entries c.queue ∙ sym lru.well.counted, full, e) refl

    trim-Adds :
        (q : List (Node D))
        → c.queue ≡ q
        → (c' : Cache h) × (trim h id_of (inserted h id_of c cont) ≡ some c')
          × Adds h id_of cont c c'
    unfolding trim inserted
    trim-Adds q e = elim (Bool-cases (ltb c.max_size (c.size + 1))) [
      | inl full ↦ over q e full
      | inr fits ↦ (inserted h id_of c cont, rw fits, fits-Adds fits)
    ]
      where
        over :
            (q : List (Node D))
            → c.queue ≡ q
            → ltb c.max_size (c.size + 1) ≡ true
            → (c' : Cache h) × (trim h id_of (inserted h id_of c cont) ≡ some c')
              × Adds h id_of cont c c'
        over [] e full =
            absurd (omega (arith, ap (length {0}) e, lru.well.counted, lru.room, ltb→lt _ _ full))
        over (first ∷ rest) e full =
            let one : c.size + 1 - c.max_size ≡ 1 = omega (arith, lru.bounded, ltb→lt _ _ full) in
            (
              cache_delete h id_of (id_of first.payload) (inserted h id_of c cont),
              rw (full, one)
                  (evict_one (inserted h id_of c cont) first (rest ++ new_node h id_of c cont ∷ [])
                    (inserted-queue ∙ ap (λ q. q ++ new_node h id_of c cont ∷ []) e)),
              full-Adds first rest e full,
            )

    -- Storing a structure under an ID that the cache does not know, with a `hashmap_put` that succeeds:
    -- the call returns 0, the entry is the most recent one, and the oldest entry is destroyed exactly
    -- if the cache was at its limit; all others keep their order, and the cache stays within its limit
    -- and has no stale node.
    pub cache_set-Adds :
        (c' : Cache h) × (cache_set h id_of cont c ≡ some (c', 0)) × Adds h id_of cont c c'
    unfolding cache_set
    cache_set-Adds = let (c', e, a) = trim-Adds c.queue refl in (c', rw (put_ok, e), a)
