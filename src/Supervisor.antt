-- ===== src/Supervisor.antt =====
-- broker/supervisor.py: the process that holds one session's emulator. Its parts are the state and
-- the writes to the store (State), the selector's events (Events), the deadlines and the exit of
-- the emulator (Deadlines), and the loop (Loop).
pub mod State
pub mod Events
pub mod Deadlines
pub mod Loop
pub mod History
pub mod Lawful
pub mod Rounds
pub mod Quiet
pub mod Exit
