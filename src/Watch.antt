-- ===== src/Watch.antt =====
-- cmd/watch: the command that watches a directory and uploads the files that settle in it.
pub mod Uploader
pub mod Attempts
pub mod Watcher
mod Examples
