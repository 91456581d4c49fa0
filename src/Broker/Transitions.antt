-- ===== src/Broker/Transitions.antt =====
-- What the broker's operations do to the state files, with every hypothesis in view.
use unixtime_machine.Prelude.{Option, String}
use unixtime_machine.Host.{Host}
use unixtime_machine.Exec.{Exec}
use unixtime_machine.Exec.Frame.{Within}
use unixtime_machine.Store.Filed.{history, IsFiled, Kept}
use unixtime_machine.Backend.{Site, IsLawful}
use unixtime_machine.Broker.Base.{AllLawful}
use unixtime_machine.Broker.Request.{Startup, request}
use unixtime_machine.Broker.Request.History.{request-history}
use unixtime_machine.Broker.Release.{release}
use unixtime_machine.Broker.Release.History.{release-history}

lawful_run :
    {A : Type 0} (m : Exec Host A) → Within history m → (h : Host) → IsFiled h → Kept h (m h).1
unfolding history
lawful_run m w h filed = w.at h filed

-- From a host where every record stands in the file that its identifier names: whatever is
-- requested and however the request ends, every record still stands in the file that
-- its identifier names, and every state file is as it was, or is new with a state that
-- `TRANSITIONS` reaches from `requested`, or holds a record of the same system whose state
-- `TRANSITIONS` reaches from the old one. The audit log has only grown, and each new line that records
-- a transition names one that `TRANSITIONS` permits. The preparation of the session and the processes
-- that run during the wait are supposed to keep to all this.
pub request-Kept :
    (site : Site) (startup : Startup) (system_id : String) (requested_id : Option String) (h : Host)
    → IsLawful site
    → AllLawful startup.rounds
    → IsFiled h
    → Kept h (request site startup system_id requested_id h).1
request-Kept site startup system_id requested_id h lawful others filed =
    lawful_run (request site startup system_id requested_id)
      (request-history site startup system_id requested_id lawful others) h filed

-- From a host where every record stands in its file: however a release ends, every state file is as
-- it was or has become what `request-Kept` says, every record stands in its file, and the audit log
-- has only grown, each new line that records a transition naming one that `TRANSITIONS` permits.
pub release-Kept : (site : Site) (id : String) (h : Host) → IsFiled h → Kept h (release site id h).1
release-Kept site id h filed = lawful_run (release site id) (release-history site id) h filed
