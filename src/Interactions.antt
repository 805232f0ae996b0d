-- ===== src/Interactions.antt =====
-- src/discord/interaction.c and include/discord/interaction.h: what the user entered, with its copy, and the
-- replies.
pub mod Options
pub mod Reply
mod Tests
