-- ===== src/Go.antt =====
-- What the program uses of Go's standard library: `strings`, `strconv` and `path`.
pub mod Strings
pub mod Numbers
pub mod Paths
