-- ===== src/Models.antt =====
-- broker/models.py and broker/session.py: the states of a session, the transitions between them,
-- the session record, and the in-memory `Session`.
mod States
mod Records
pub mod Graph
pub mod Reachable
unfoldable pub use States.*
unfoldable pub use Records.*
