-- ===== src/Broker/Request/History.antt =====
-- The state files under `request` of broker/manager.py.
use unixtime_machine.Prelude.{
  ℕ, ◌+◌, ◌≡◌, refl, ap, sym, ◌∙◌, false, List, [], ◌∷◌, Option, none, some, String, arith,
  Bool-cases, inl, inr,
}
use unixtime_machine.Prelude.Dict.{contains, lookup}
use unixtime_machine.Errors.{Error, startup_timeout_exceeded, duplicate_session}
use unixtime_machine.Exec.{Exec, lift, gets, pure, raise, raise_if, when, modify, ◌>>=◌, ◌>>◌}
use unixtime_machine.Exec.Frame.{
  Within, Within-bind, Within-raise, Within-lift, Within-lift_bind, Within-rescue,
}
use unixtime_machine.Models.{
  SessionRecord, new_record, requested, allocated, preparing, failed, same_state,
}
use unixtime_machine.Models.Reachable.{here}
use unixtime_machine.Host.{Host, Launch, message, text}
use unixtime_machine.Store.{load, write_state, commit, save, audit, transition}
use unixtime_machine.Store.Filed.{
  history, load-history, audit-history, IsDerived, Within-same_files, commit_new-Kept,
  commit-IsDerived,
}
use unixtime_machine.Store.Sound.{
  Sound, Sound-write_state, Sound-Within, Within-Sound, Sound-bind, Sound-transition, Sound-save,
  Sound-audit, Sound-pure, Sound-gets, Sound-refuse, Sound-weaken, Sound-when, relabel, Anything,
}
use unixtime_machine.Store.Kept.{load_then-history, modify-history, store_rules, others-history}
use unixtime_machine.Ids.{safe_id}
use unixtime_machine.Manifest.{system_manifest}
use unixtime_machine.Outcome.{ok}
use unixtime_machine.Backend.{Site, Backend, backend_for, IsLawful}
use unixtime_machine.Broker.Base.{Round, AllLawful, write_launch}
use unixtime_machine.Broker.NextId.{next_id}
use unixtime_machine.Broker.Request.{
  admit, allocate, choose_id, is_used, given, Startup, raise_some, judge, look, started, child_exit,
  resume, await_start, terminate, start, mark_failed, fail_request, request, with_prepared,
  launch_of,
}

admit-history : (site : Site) (system_id : String) → Within history (admit site system_id)
unfolding admit
admit-history site system_id = search store_rules

next_id-history : (system_id : String) → Within history (next_id system_id)
unfolding next_id
next_id-history system_id = search (store_rules, counted)
  where
    counted : (n : ℕ) → Within history (modify (λ h. record h { counter = some (n + 1) }))
    counted n = modify-history (λ h. record h { counter = some (n + 1) }) (λ h. refl) (λ h. refl)

choose_id-history :
    (system_id : String) (id : Option String) → Within history (choose_id system_id id)
unfolding choose_id
choose_id-history system_id none = next_id-history system_id
choose_id-history system_id (some id) = search store_rules

unused :
    (system_id id : String) (h : Host) → is_used system_id id h ≡ false → lookup id h.files ≡ none
unfolding is_used contains
unused system_id id h e = ground arith

-- The record of a new session is saved where there is none, and moved on.
allocate_new : (system_id id : String) → Exec Host String
allocate_new system_id id = do
  requested_record ← save (new_record id system_id)
  audit "request" (some requested_record) []
  placed ← transition requested_record allocated "allocation" []
  transition placed preparing "preparation" []
  pure id

Sound-commit_new :
    (r : SessionRecord)
    → r.state ≡ requested
    → Sound (λ h. lookup r.session_id h.files ≡ none) (commit r) IsDerived
unfolding commit
Sound-commit_new r e = record {
  at = λ h filed free. (commit_new-Kept r h filed free (rw e here), commit-IsDerived r h);
}

Sound-save_new :
    (r : SessionRecord)
    → r.state ≡ requested
    → Sound (λ h. lookup r.session_id h.files ≡ none) (save r) IsDerived
unfolding save
Sound-save_new r e =
    Sound-bind write_state _
      (Sound-write_state λ h t same free. ap (lookup r.session_id) same ∙ free)
      λ _. Sound-commit_new r e

allocate_new-Sound :
    (system_id id : String)
    → Sound (λ h. lookup id h.files ≡ none) (allocate_new system_id id) Anything
unfolding allocate_new
allocate_new-Sound system_id id =
    Sound-bind (save (new_record id system_id)) _ (Sound-save_new (new_record id system_id) refl)
      λ r. Sound-bind (audit "request" (some r) []) _ (Sound-audit "request" (some r) [] r tt) λ _.
        Sound-bind (transition r allocated "allocation" []) _
          (Sound-transition r allocated "allocation" [])
          λ placed.
            Sound-bind (transition placed preparing "preparation" []) _
              (Sound-transition placed preparing "preparation" []) λ _. Sound-pure id (λ h d. tt)

allocate-history :
    (site : Site) (system_id : String) (requested_id : Option String)
    → Within history (allocate site system_id requested_id)
unfolding allocate allocate_new
allocate-history site system_id requested_id =
    Within-bind (admit site system_id) _ (admit-history site system_id) λ _.
      Within-bind (choose_id system_id (given requested_id)) _
        (choose_id-history system_id (given requested_id))
        λ id. Sound-Within {Q = Anything} _ (
          Sound-bind (gets (is_used system_id id)) _ (Sound-gets (is_used system_id id)) λ used.
            Sound-bind (raise_if used (duplicate_session id)) (λ _. allocate_new system_id id)
              (Sound-refuse used (duplicate_session id)
                (λ h e free. unused system_id id h (sym e ∙ free)))
              (λ _. allocate_new-Sound system_id id))

raise_some-history : (o : Option Error) → Within history (raise_some o)
unfolding raise_some
raise_some-history none = search store_rules
raise_some-history (some e) = search store_rules

mark_failed-Sound : (e : Error) (r : SessionRecord) → Sound (IsDerived r) (mark_failed e r) Anything
unfolding mark_failed
mark_failed-Sound e r =
    Sound-bind
      (transition (record r { failure = some e }) failed "failure" (("reason", message e) ∷ [])) _
      (Sound-weaken _ (relabel r (record r { failure = some e }) refl refl refl) (
        Sound-transition (record r { failure = some e }) failed "failure"
          (("reason", message e) ∷ [])))
      λ _. Sound-pure tt (λ h d. tt)

-- Writing launch or stop files and signalling leaves the state files alone.
write_launch-history : (path : String) (launch : Launch) → Within history (write_launch path launch)
unfolding write_launch
write_launch-history path launch =
    Within-same_files (write_launch path launch) (λ h. refl) (λ h. refl)

terminate-history : (child : ℕ) → Within history (modify (terminate child))
terminate-history child = modify-history (terminate child) (λ h. refl) (λ h. refl)

child_exit-look : (o : Option Error) (found : Option SessionRecord) → Within history (look o found)
child_exit-look none found = search store_rules
child_exit-look (some e) found = search store_rules

judge-history : (round : Round) (r : SessionRecord) → Within history (judge round r)
unfolding judge
judge-history round r = elim (Bool-cases (started r.state)) [
  | inl e ↦ rw e (search store_rules)
  | inr e ↦ elim (Bool-cases (same_state r.state failed)) [
    | inl f ↦ rw (e, f) (search store_rules)
    | inr f ↦ rw (e, f) (child_exit-look (child_exit round) none)
  ]
]

resume-history :
    (o : Option SessionRecord) (rest : Exec Host SessionRecord)
    → Within history rest
    → Within history (resume o rest)
unfolding resume
resume-history none rest k = k
resume-history (some r) rest k = search store_rules

await_start-history :
    (id : String) (child : ℕ) (rounds : List Round)
    → AllLawful rounds
    → Within history (await_start id child rounds)
unfolding await_start
await_start-history id child [] lawful = Within-bind (load id) _ (load-history id) λ r.
    Within-bind (audit "timeout" (some r) (("kind", text "startup") ∷ [])) _
      (audit-history "timeout" (some r) (("kind", text "startup") ∷ []) tt)
      λ _.
        Within-bind (modify (terminate child)) _ (terminate-history child)
          λ _. Within-raise startup_timeout_exceeded
await_start-history id child (round ∷ rounds) lawful =
    Within-bind (modify round.others) _ (others-history round.others lawful.0) λ _.
      Within-bind (load id) _ (load-history id) λ r.
        Within-bind (judge round r) _ (judge-history round r) λ o.
          resume-history o (await_start id child rounds)
            (await_start-history id child rounds lawful.1)

start-history :
    (backend : Backend) (startup : Startup) (system_id id : String)
    → Within history (backend.prepare system_id id)
    → AllLawful startup.rounds
    → Within history (start backend startup system_id id)
unfolding start
start-history backend startup system_id id prepares lawful =
    Within-bind (backend.prepare system_id id) _ prepares λ prepared.
      Within-bind (write_launch prepared.workspace (launch_of backend prepared)) _
        (write_launch-history _ _)
        λ _. load_then-history id _ λ r.
          Sound-bind (save (with_prepared id prepared r)) _
            (Sound-weaken _ (relabel r (with_prepared id prepared r) refl refl refl)
              (Sound-save (with_prepared id prepared r)))
            λ _. Within-Sound _ (
              Within-bind (raise_some startup.spawn_error) _
                (raise_some-history startup.spawn_error)
                λ _. await_start-history id startup.child startup.rounds lawful)

fail_request-history : (id : String) (e : Error) → Within history (fail_request id e)
unfolding fail_request
fail_request-history id e = load_then-history id _ λ r.
    Sound-bind (when _ (mark_failed e r)) _ (Sound-when _ (mark_failed e r) (mark_failed-Sound e r))
      λ _. Within-Sound (raise e) (search store_rules)

-- The adapter prepares sessions as the site does.
backend_for-prepare :
    (site : Site) (system_id : String) (backend : Backend)
    → backend_for site system_id ≡ ok backend
    → backend.prepare ≡ site.prepare
unfolding backend_for
backend_for-prepare site system_id backend e = ground arith

-- Whatever the request and however it ends, it is lawful if the preparation and the supervisor are.
pub request-history :
    (site : Site) (startup : Startup) (system_id : String) (requested_id : Option String)
    → IsLawful site
    → AllLawful startup.rounds
    → Within history (request site startup system_id requested_id)
unfolding request
request-history site startup system_id requested_id lawful others =
    Within-bind (lift (safe_id "system id" system_id)) _ (Within-lift _) λ _.
      Within-bind (lift (system_manifest site.manifests system_id)) _ (Within-lift _) λ _.
        Within-lift_bind (backend_for site system_id) _ λ backend e.
          Within-bind (allocate site system_id requested_id) _
            (allocate-history site system_id requested_id)
            λ id.
              Within-rescue (start backend startup system_id id) (fail_request id)
                (start-history backend startup system_id id
                  (rw (backend_for-prepare site system_id backend e)
                    (lawful.prepare_lawful system_id id))
                  others)
                (fail_request-history id)
