-- ===== src/Storage.antt =====
-- storage/: the pages.
pub mod Memory
pub mod Address
pub mod Format
pub mod Page
pub mod IoService
pub mod PageMap
pub mod TableSpace
