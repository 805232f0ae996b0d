-- ===== src/Commands.antt =====
-- src/discord/command.c and include/discord/command.h: the JSON of application commands and their requests.
pub mod Order
pub mod Options
pub mod Written
pub mod Register
mod Tests
