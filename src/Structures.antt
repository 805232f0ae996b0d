-- ===== src/Structures.antt =====
-- The structures of src/discord that carry what Discord sends: users, members, attachments, embeds, components and
-- channels, with their conversions from JSON, their copies and what their destruction frees.
pub mod User
pub mod Member
pub mod Attachment
pub mod Embed
pub mod Arrays
pub mod Component
pub mod Channel
pub mod Copies
mod Tests
