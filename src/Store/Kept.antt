-- ===== src/Store/Kept.antt =====
-- The operations of broker/store.py in the frame of the state files.
use unixtime_machine.Prelude.{◌≡◌, String}
use unixtime_machine.Exec.{Exec, modify, ◌>>=◌}
use unixtime_machine.Exec.Frame.{Within, Within-bind, Within-pure, frame_rules}
use unixtime_machine.Models.{SessionRecord}
use unixtime_machine.Host.{Host}
use unixtime_machine.Store.{load}
use unixtime_machine.Store.Filed.{
  history, Lawful, same_files, Within-same_files, load-history, all-history, audit-history,
  nothing_more,
}
use unixtime_machine.Store.Sound.{Sound, Sound-Within, Sound-bind, Sound-load}
use unixtime_machine.Store.Filed.{IsDerived}

-- Loading a record and going on from it.
pub load_then-history :
    {A : Type 0} {Q : A → Host → Type 0} (id : String) (f : SessionRecord → Exec Host A)
    → ((r : SessionRecord) → Sound (IsDerived r) (f r) Q)
    → Within history (load id >>= f)
load_then-history id f sf = Sound-Within (load id >>= f) (Sound-bind (load id) f (Sound-load id) sf)

pub modify-history :
    (f : Host → Host)
    → ((h : Host) → (f h).files ≡ h.files)
    → ((h : Host) → (f h).audits ≡ h.audits)
    → Within history (modify f)
unfolding modify
modify-history f e a = Within-same_files (modify f) e a

pub others-history : (f : Host → Host) → ((h : Host) → Lawful h (f h)) → Within history (modify f)
unfolding modify history
others-history f k = record { at = k }

pub ruleset store_rules = (frame_rules, load-history, all-history, audit-history, nothing_more)
