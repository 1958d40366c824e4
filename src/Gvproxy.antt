-- ===== src/Gvproxy.antt =====
-- cmd/gvproxy, and GvproxyCommand of pkg/types, which writes its command line.
pub mod Options
pub mod Command
pub mod Main
pub mod Config
pub mod Run
pub mod Version
mod Tests
