-- ===== src/Cache.antt =====
-- src/utils/cache.c and include/utils/cache.h: the caches of messages, channels and guilds.
-- One `Cache` is the map, the queue and the limit of one kind of structure.
-- `hashmap.h` is a parameter, `HashMap`; `TAILQ_*` are operations on the list of nodes, oldest first.
pub mod Defs
pub mod Queue
pub mod Invariant
pub mod Spec
pub mod Lru
pub mod Insert
pub mod History
pub mod Stale
pub mod Global
pub mod Lifecycle
mod Tests
