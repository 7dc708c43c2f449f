-- ===== src/Relay.antt =====
-- The relay of deep links: a source channel is scanned on a schedule, the links of its messages are
-- sent to a target bot, and the files that the bot answers with become tasks.
pub mod Collect
pub mod Store
pub mod Process
pub mod Dialogue
pub mod Schedule
pub mod DeepLink
pub mod Api
mod Examples
