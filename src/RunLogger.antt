-- ===== src/RunLogger.antt =====
-- src/raspa_run_logger.h: the double buffer between the real time thread, which puts a pair of
-- timestamps for each period, and the logger's thread, which writes blocks of them to a file.
mod Defs
pub mod Pending
pub mod Blocks
pub mod History
pub mod Tests
unfoldable pub use Defs.*
