-- ===== src/Cache/History.antt =====
-- Whole histories of calls on one cache, against the specification.
use disco_c.Prelude.{
  ℕ, ◌≡◌, refl, ap, ◌∙◌, inl, inr, true, Option, none, some, List, [], ◌∷◌, Option-cases,
}
use mathlib.Core.Option
use mathlib.Core.Path.{ap₂}
use disco_c.Cache.Defs.{HashMap, IsHashMap, Node, Cache, cache_delete, cache_get, cache_set}
use disco_c.Cache.Spec.{lookup, without, use_entry, add_entry}
use disco_c.Cache.Lru.{
  entries, IsLru, found, cache_get-refines, cache_delete-refines, cache_get-limit,
  cache_delete-limit,
}
use disco_c.Cache.Insert.{cache_set-Adds}

-- A call of `discord_cache_set`, `_get` or `_delete` for one kind of structure.
pub data Call (D : Type 0) : Type 0 where
  store : D → Call D
  look : ℕ → Call D
  forget : ℕ → Call D

module _ {D : Type 0} (h : HashMap (Node D)) (id_of : D → ℕ) where
  -- The cache after the calls, and what each lookup gave; `none` if a call read through NULL.
  unfoldable pub run : List (Call D) → Cache h → Option (Cache h × List (Option D))
  run [] c = some (c, [])
  run (store d ∷ calls) c = elim (cache_set h id_of d c) [
    | none ↦ none
    | some (c', _) ↦ run calls c'
  ]
  run (look id ∷ calls) c =
      Option.map (λ r. (r.0, (cache_get h id_of id c).1 ∷ r.1))
        (run calls (cache_get h id_of id c).0)
  run (forget id ∷ calls) c = run calls (cache_delete h id_of id c)

module _ {D : Type 0} (id_of : D → ℕ) (limit : ℕ) where
  -- The same by the specification.
  unfoldable pub run_spec : List (Call D) → List (ℕ × D) → List (ℕ × D) × List (Option D)
  run_spec [] l = (l, [])
  run_spec (store d ∷ calls) l = run_spec calls (add_entry limit (id_of d) d l)
  run_spec (look id ∷ calls) l = let r = run_spec calls (use_entry id l) in (r.0, lookup id l ∷ r.1)
  run_spec (forget id ∷ calls) l = run_spec calls (without id l)

  -- No call stores a structure under an ID that is in the cache at that point.
  abbrev pub StoresNew : List (Call D) → List (ℕ × D) → Type 0
  StoresNew [] l = Unit
  StoresNew (store d ∷ calls) l =
      (lookup (id_of d) l ≡ none) × StoresNew calls (add_entry limit (id_of d) d l)
  StoresNew (look id ∷ calls) l = StoresNew calls (use_entry id l)
  StoresNew (forget id ∷ calls) l = StoresNew calls (without id l)

module _ {D : Type 0} (h : HashMap (Node D)) (laws : IsHashMap h) (id_of : D → ℕ)
    (put_succeeds : (t : h.Table) (k : ℕ) (v : Node D) → (h.put t k v).1 ≡ true) where
  unknown_of_lookup :
      (c : Cache h) (id : ℕ)
      → IsLru h id_of c
      → lookup id (entries c.queue) ≡ none
      → h.get c.map id ≡ none
  unknown_of_lookup c id lru e = elim (Option-cases (h.get c.map id)) [
    | inl absent ↦ absent
    | inr (n, present) ↦ absurd (cc (e, (found h laws id_of c id n lru.exact present).0))
  ]

  abbrev RunsLike : List (Call D) → ℕ → List (ℕ × D) → Cache h → Type 0
  RunsLike calls limit l c =
      (c' : Cache h) × (run h id_of calls c ≡ some (c', (run_spec id_of limit calls l).1))
      × (entries c'.queue ≡ (run_spec id_of limit calls l).0)
      × IsLru h id_of c'

  run-refines_from :
      (calls : List (Call D)) (c : Cache h) (limit : ℕ) (l : List (ℕ × D))
      → IsLru h id_of c
      → c.max_size ≡ limit
      → entries c.queue ≡ l
      → StoresNew id_of limit calls l
      → RunsLike calls limit l c
  unfolding run run_spec
  run-refines_from [] c limit l lru m q new = (c, refl, q, lru)
  run-refines_from (store d ∷ calls) c limit l lru m q new =
      let absent = unknown_of_lookup c (id_of d) lru (ap (lookup (id_of d)) q ∙ new.0) in
      let (c₁, e, a) = cache_set-Adds h laws id_of c d lru (put_succeeds _ _ _) absent in
      let q₁ : entries c₁.queue ≡ add_entry limit (id_of d) d l =
        a.added ∙ ap₂ (λ x y. add_entry x (id_of d) d y) m q in
      let (c', e', q', r) = run-refines_from calls c₁ limit _ a.lru (a.limit ∙ m) q₁ new.1 in
      (c', rw (e, run) e', q', r)
  run-refines_from (look id ∷ calls) c limit l lru m q new =
      let (r, q₁, lru₁) = cache_get-refines h laws id_of c id lru in
      let (c', e', q', s) =
        run-refines_from calls _ limit (use_entry id l) lru₁ (cache_get-limit h laws id_of c id ∙ m)
          (q₁ ∙ ap (use_entry id) q) new in
      (c', rw (e', r, q), q', s)
  run-refines_from (forget id ∷ calls) c limit l lru m q new =
      let (q₁, lru₁) = cache_delete-refines h laws id_of c id lru in
      run-refines_from calls _ limit (without id l) lru₁ (cache_delete-limit h laws id_of c id ∙ m)
        (q₁ ∙ ap (without id) q) new

  -- A history in which every stored ID is new to the cache, on a hash table that never fails, runs to
  -- its end; every lookup gives what the least-recently-used cache of the specification gives, and
  -- the cache holds the specification's entries in the specification's order, with no stale node.
  pub run-refines :
      (calls : List (Call D)) (c : Cache h)
      → IsLru h id_of c
      → StoresNew id_of c.max_size calls (entries c.queue)
      → (c' : Cache h) × (run h id_of calls c
          ≡ some (c', (run_spec id_of c.max_size calls (entries c.queue)).1))
        × (entries c'.queue ≡ (run_spec id_of c.max_size calls (entries c.queue)).0)
        × IsLru h id_of c'
  run-refines calls c lru new = run-refines_from calls c c.max_size _ lru refl refl new
