-- ===== src/Cache/Tests.antt =====
-- Runs of a cache over a table that is a function, and its theorems at concrete caches.
use disco_c.Prelude.{
  ℕ, ◌≡◌, refl, true, Option, none, some, List, [], ◌∷◌, arith, ◌==◌, if◌then◌else◌,
}
use mathlib.Core.Option
use disco_c.Cache.Defs.{HashMap, IsHashMap, Node, Cache, unlink, cache_delete, cache_get, cache_set}
use disco_c.Cache.Spec.{lookup, without, use_entry, add_entry}
use disco_c.Cache.Invariant.{IsWellFormed}
use disco_c.Cache.Lru.{entries, IsLru, cache_get-refines, cache_delete-refines}
use disco_c.Cache.Insert.{Adds, cache_set-Adds}
use disco_c.Cache.History.{Call, run, run_spec, run-refines}
use disco_c.Cache.Stale.{IsStuck, cache_delete_stale, set_all, set_all_stuck}

-- A structure is its ID with a version.
abbrev Item : Type 0
Item = ℕ × ℕ

abbrev item_id : Item → ℕ
item_id d = d.0

abbrev tables : HashMap (Node Item)
tables = record {
  Table = ℕ → Option (Node Item);
  get = λ t k. t k;
  put = λ t k v. ((λ j. if k == j then some v else t j), true);
  remove = λ t k j. if k == j then none else t j;
}

tables-IsHashMap : IsHashMap tables
tables-IsHashMap = record {
  get-put_self = λ t k v e. ground arith;
  get-put_ne = λ t k v j e d. ground arith;
  get-remove_self = λ t k. ground arith;
  get-remove_ne = λ t k j d. ground arith;
}

abbrev empty : Cache tables
empty = record {
  map = λ _. none;
  queue = [];
  size = 0;
  max_size = 2;
  next_addr = 0;
  destroyed = [];
}

abbrev first : Node Item
first = record { addr = 0; alloc_id = 1; payload = (1, 10) }

abbrev second : Node Item
second = record { addr = 1; alloc_id = 2; payload = (2, 20) }

abbrev full : Cache tables
full = record {
  map = λ j. if 2 == j then some second else if 1 == j then some first else none;
  queue = first ∷ second ∷ [];
  size = 2;
  max_size = 2;
  next_addr = 2;
  destroyed = [];
}

full-IsWellFormed : IsWellFormed tables item_id full
full-IsWellFormed = record {
  counted = refl;
  fresh = omega arith;
  distinct = omega arith;
  keyed = (refl, (refl, tt));
  mapped = λ id n p. ground arith;
}

full-IsLru : IsLru tables item_id full
full-IsLru = record {
  exact = record { well = full-IsWellFormed; current = (refl, (refl, tt)) };
  room = omega arith;
  bounded = omega arith;
}

-- The first node is of an earlier version of the structure with the ID 1.
abbrev newer : Node Item
newer = record { addr = 2; alloc_id = 1; payload = (1, 11) }

abbrev edited : Cache tables
edited = record full {
  map = λ j. if 1 == j then some newer else none;
  queue = first ∷ newer ∷ [];
  next_addr = 3;
}

-- The map does not know the only node.
abbrev stuck : Cache tables
stuck = record full { map = λ _. none; queue = first ∷ []; size = 1 }

stuck-IsWellFormed : IsWellFormed tables item_id stuck
stuck-IsWellFormed = record {
  counted = refl;
  fresh = omega arith;
  distinct = omega arith;
  keyed = (refl, tt);
  mapped = λ id n p. absurd (cc p);
}

abbrev contents : Cache tables × ℕ → List (ℕ × Item) × List Item
contents r = (entries r.0.queue, r.0.destroyed)

-- A third ID evicts the oldest; a second version of an ID does not, and the next store then
-- destroys that version.
stores :
    (Option.map contents (cache_set tables item_id (3, 30) full)
      ≡ some ((2, (2, 20)) ∷ (3, (3, 30)) ∷ [], (1, 10) ∷ []))
    × (Option.map contents (cache_set tables item_id (3, 30) edited)
        ≡ some ((1, (1, 10)) ∷ (3, (3, 30)) ∷ [], (1, 11) ∷ []))
unfolding cache_set
stores = (refl, refl)

abbrev calls : List (Call Item)
calls = Call.look 1 ∷ Call.store (3, 30) ∷ Call.look 2 ∷ Call.forget 1 ∷ Call.look 1 ∷ []

run-refines_example :
    (c' : Cache tables) × (run tables item_id calls full
      ≡ some (c', (run_spec item_id 2 calls ((1, (1, 10)) ∷ (2, (2, 20)) ∷ [])).1))
    × (entries c'.queue ≡ (run_spec item_id 2 calls ((1, (1, 10)) ∷ (2, (2, 20)) ∷ [])).0)
    × IsLru tables item_id c'
unfolding use_entry add_entry lookup without
run-refines_example =
    run-refines tables tables-IsHashMap item_id (λ t k v. refl) calls full full-IsLru (refl, tt)

spec_of_calls :
    run_spec item_id 2 calls ((1, (1, 10)) ∷ (2, (2, 20)) ∷ [])
    ≡ ((3, (3, 30)) ∷ [], some (1, 10) ∷ none ∷ none ∷ [])
unfolding run_spec use_entry add_entry without lookup
spec_of_calls = refl

cache_set-Adds_example :
    (c' : Cache tables) × (cache_set tables item_id (3, 30) full ≡ some (c', 0))
    × Adds tables item_id (3, 30) full c'
cache_set-Adds_example =
    cache_set-Adds tables tables-IsHashMap item_id full (3, 30) full-IsLru refl refl

cache_get-refines_example :
    ((cache_get tables item_id 1 full).1 ≡ lookup 1 (entries full.queue))
    × (entries (cache_get tables item_id 1 full).0.queue ≡ use_entry 1 (entries full.queue))
    × IsLru tables item_id (cache_get tables item_id 1 full).0
cache_get-refines_example = cache_get-refines tables tables-IsHashMap item_id full 1 full-IsLru

cache_delete-refines_example :
    (entries (cache_delete tables item_id 1 full).queue ≡ without 1 (entries full.queue))
    × IsLru tables item_id (cache_delete tables item_id 1 full)
cache_delete-refines_example =
    cache_delete-refines tables tables-IsHashMap item_id full 1 full-IsLru

cache_delete_stale_example :
    let c' = cache_delete tables item_id 1 edited in
    (c'.queue ≡ first ∷ []) × (c'.destroyed ≡ (1, 11) ∷ []) × IsStuck tables item_id c' first
unfolding unlink
cache_delete_stale_example =
    cache_delete_stale tables tables-IsHashMap item_id edited first newer (newer ∷ [])
      (record { oldest = refl; newer = refl; other = omega arith })

set_all_stuck_example :
    (c' : Cache tables) × (set_all tables item_id ((2, 20) ∷ (3, 30) ∷ (4, 40) ∷ []) stuck
      ≡ some c')
    × (c'.size ≡ 4)
    × (c'.destroyed ≡ [])
    × (c'.max_size ≡ 2)
set_all_stuck_example =
    set_all_stuck tables tables-IsHashMap item_id (λ t k v. refl) ((2, 20) ∷ (3, 30) ∷ (4, 40) ∷ [])
      stuck first (omega arith) stuck-IsWellFormed
      (record { rest = []; oldest = refl; unknown = refl })
