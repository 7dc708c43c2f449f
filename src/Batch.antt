-- ===== src/Batch.antt =====
-- core/tasks/batchtfile: a task that saves many Telegram files, in groups, with a progress record
-- for each file.
pub mod Meter
pub mod Items
pub mod Upload
pub mod Saving
pub mod Groups
pub mod Element
mod Examples
