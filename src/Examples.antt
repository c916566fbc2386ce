-- ===== src/Examples.antt =====
-- The example programs over the library.
pub mod Print
pub mod Subscribe
pub mod Exchange
pub mod Dtls
