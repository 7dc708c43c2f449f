-- ===== src/Aria2.antt =====
-- core/tasks/aria2dl: the task that waits for a download of aria2 and then saves its files.
pub mod Wait
pub mod Transfer
mod Examples
