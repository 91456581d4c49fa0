-- ===== src/Media.antt =====
-- The media that systems are installed from: scripts/utmlib.py `verify_media` (Verify) and
-- scripts/media43bsd.py: `write_simh_tape` (Tape), `decode_boot42` (Boot) and the checks of
-- `prepare_43bsd` (Sources).
pub mod Verify
pub mod Tape
pub mod Sources
pub mod Boot
