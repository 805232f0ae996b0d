-- ===== src/Cache/Defs.antt =====
-- src/utils/cache.c: one cache, with `discord_cache_set`, `_get` and `_delete` on it.
use disco_c.Prelude.{
  ℕ, zero, suc, ◌+◌, ◌-◌, ◌≡◌, ◌≢◌, Bool, true, List, [], ◌∷◌, ◌++◌, Option, none, some, ltb, ◌==◌,
  if◌then◌else◌,
}
use mathlib.Core.Option

-- What the cache uses of `hashmap.h`, whose keys are the eight bytes of an ID. `put` gives the table
-- that it leaves and whether it returned 0. (`hashmap_create` is in `Global`.)
pub record HashMap (V : Type 0) : Type 1 where
  pub Table : Type 0
  pub get : Table → ℕ → Option V
  pub put : Table → ℕ → V → Table × Bool
  pub remove : Table → ℕ → Table

-- The documented behaviour of `hashmap.h` that the cache relies on.
pub record IsHashMap {V : Type 0} (h : HashMap V) : Type 0 where
  pub get-put_self :
      (t : h.Table) (k : ℕ) (v : V) → (h.put t k v).1 ≡ true → h.get (h.put t k v).0 k ≡ some v
  pub get-put_ne :
      (t : h.Table) (k : ℕ) (v : V) (j : ℕ)
      → (h.put t k v).1 ≡ true
      → k ≢ j
      → h.get (h.put t k v).0 j ≡ h.get t j
  pub get-remove_self : (t : h.Table) (k : ℕ) → h.get (h.remove t k) k ≡ none
  pub get-remove_ne : (t : h.Table) (k j : ℕ) → k ≢ j → h.get (h.remove t k) j ≡ h.get t j

-- `struct node`. `addr` is the address that `malloc` gave it, by which `TAILQ_REMOVE` finds it.
pub record Node (D : Type 0) : Type 0 where
  pub addr : ℕ
  pub alloc_id : ℕ
  pub payload : D

-- One map with its `struct buffer` and its limit. `next_addr` is an address that `malloc` has not
-- given yet, and `destroyed` the structures handed to `destroy_item_callback_fn`, newest first.
pub record Cache {D : Type 0} (h : HashMap (Node D)) : Type 0 where
  pub map : h.Table
  pub queue : List (Node D)
  pub size : ℕ
  pub max_size : ℕ
  pub next_addr : ℕ
  pub destroyed : List D

-- `TAILQ_REMOVE`.
unfoldable pub unlink : {D : Type 0} → ℕ → List (Node D) → List (Node D)
unlink a [] = []
unlink a (n ∷ rest) = if n.addr == a then rest else n ∷ unlink a rest

-- `D` is what the `void *` points to, and `id_of` reads its `id` member.
module _ {D : Type 0} (h : HashMap (Node D)) (id_of : D → ℕ) where
  -- A node that the map gives is moved to the tail.
  unfoldable pub move_to_tail : Option (Node D) → List (Node D) → List (Node D)
  unfolding unlink
  move_to_tail none queue = queue
  move_to_tail (some n) queue = unlink n.addr queue ++ n ∷ []

  unfoldable pub delete_node : Option (Node D) → ℕ → Cache h → Cache h
  unfolding unlink
  delete_node none id c = c
  delete_node (some n) id c = record c {
    map = h.remove c.map id;
    queue = unlink n.addr c.queue;
    size = c.size - 1;
    destroyed = n.payload ∷ c.destroyed;
  }

  unfoldable pub cache_delete : ℕ → Cache h → Cache h
  unfolding delete_node
  cache_delete id c = delete_node (h.get c.map id) id c

  unfoldable pub cache_get : ℕ → Cache h → Cache h × Option D
  unfolding move_to_tail
  cache_get id c = (
    record c { queue = move_to_tail (h.get c.map id) c.queue },
    Option.map (λ n. n.payload) (h.get c.map id),
  )

  -- The `for` loop that removes the oldest entries; `none` is the read through `first` when the
  -- queue is empty.
  unfoldable pub evict : ℕ → Cache h → Option (Cache h)
  unfolding cache_delete
  evict zero c = some c
  evict (suc i) c = elim c.queue [
    | [] ↦ none
    | first ∷ _ ↦ evict i (cache_delete (id_of first.payload) c)
  ]

  unfoldable pub new_node : Cache h → D → Node D
  new_node c cont = record { addr = c.next_addr; alloc_id = id_of cont; payload = cont }

  -- The state after the new node is in the map and at the tail of the queue, behind the old one.
  unfoldable pub inserted : Cache h → D → Cache h
  unfolding move_to_tail new_node
  inserted c cont = record c {
    map = (h.put c.map (id_of cont) (new_node c cont)).0;
    queue = move_to_tail (h.get c.map (id_of cont)) c.queue ++ new_node c cont ∷ [];
    size = c.size + 1;
    next_addr = suc c.next_addr;
  }

  -- `hashmap_put` failed: the size has been counted up, and the node is in no queue.
  unfoldable pub insert_failed : Cache h → D → Cache h
  unfolding move_to_tail new_node
  insert_failed c cont = record c {
    map = (h.put c.map (id_of cont) (new_node c cont)).0;
    queue = move_to_tail (h.get c.map (id_of cont)) c.queue;
    size = c.size + 1;
    next_addr = suc c.next_addr;
  }

  unfoldable pub trim : Cache h → Option (Cache h)
  unfolding evict
  trim c = if ltb c.max_size c.size then evict (c.size - c.max_size) c else some c

  -- The state and the value returned.
  unfoldable pub cache_set : D → Cache h → Option (Cache h × ℕ)
  unfolding inserted insert_failed trim
  cache_set cont c =
      if (h.put c.map (id_of cont) (new_node c cont)).1
      then Option.map (λ c'. (c', 0)) (trim (inserted c cont))
      else some (insert_failed c cont, 1)
