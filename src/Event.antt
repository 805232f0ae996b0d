-- ===== src/Event.antt =====
-- src/discord/event.c: what the client does with an event. The user's functions are a log of calls;
-- the structures that the events carry are made and copied by the operations of `Structs`.
pub mod Bot
pub mod Dispatch
pub mod Messages
mod Tests
