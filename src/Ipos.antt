-- ===== src/Ipos.antt =====
-- The IPO tables: queries and the upsert of app/repositories/ipo.py, and app/services/ipo.py.
mod Tests
pub mod Closing
pub mod Upsert
pub mod Columns
pub mod Flush
pub mod Shortcuts
pub mod Pages
pub mod Filters
pub mod Status
pub mod Lifecycle
