-- ===== src/Utils.antt =====
-- common/utils: arguments with quotes, names of files, and the numbers of threads. A rune is its code
-- point and a string of runes a list of them.
pub mod Args
pub mod Pathname
pub mod Numbers
mod Examples
