-- ===== src/Runtime.antt =====
-- scripts/utmlib.py: the operations on files that prepare the run of a system.
pub mod Copy
pub mod Golden
pub mod Import
pub mod Render
pub mod Replace
pub mod Session
pub mod Simh
