-- ===== src/Outgoing.antt =====
-- src/discord/message.c: the JSON of the messages that are sent, and the requests that send, edit and fetch
-- messages.
pub mod Buffer
pub mod Embeds
pub mod Mentions
pub mod Content
pub mod Message
pub mod RoundTrip
mod Tests
