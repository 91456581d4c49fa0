-- ===== src/Store/Filed.antt =====
-- What may become of the state files of broker/store.py, as a relation between hosts.
use unixtime_machine.Prelude.{
  ◌≡◌, refl, sym, ◌∙◌, ap, Bool, true, false, List, [], ◌∷◌, ◌++◌, subst, Option, none, some,
  String, arith, eq_iff, if◌then◌else◌, Bool-cases, inl, inr, str_eq,
}
use unixtime_machine.Prelude.Dict.{lookup, lookup-put}
use unixtime_machine.Exec.{Exec}
use unixtime_machine.Exec.Frame.{Frame, Within, Within-bind}
use unixtime_machine.Models.{SessionState, SessionRecord, requested, allowed}
use unixtime_machine.Models.Reachable.{Reach, here, Reach-trans}
use unixtime_machine.Host.{Host, StateFile, valid, Detail, AuditEntry, state_text}
use unixtime_machine.Store.{load, all, write_state, take_write, commit, append, audit, stamp}

-- What may become of one state file.
pub data FileStep (f g : Option StateFile) : Type 0 where
  same : g ≡ f → FileStep f g
  created :
      (r : SessionRecord) → f ≡ none → g ≡ some (valid r) → Reach requested r.state → FileStep f g
  moved :
      (r r' : SessionRecord)
      → f ≡ some (valid r)
      → g ≡ some (valid r')
      → Reach r.state r'.state
      → r'.system_id ≡ r.system_id
      → FileStep f g

same_record : (r s : SessionRecord) → some (valid r) ≡ some (valid s) → r ≡ s
same_record r s e = cc

absent_or_valid :
    {A : Type 0} (r : SessionRecord) (f : Option StateFile) → f ≡ none → f ≡ some (valid r) → A
absent_or_valid r f p q = absurd (cc)

reach_from : (r s : SessionRecord) (t : SessionState) → r ≡ s → Reach s.state t → Reach r.state t
reach_from r s t e p = rw e p

FileStep-trans : (f g k : Option StateFile) → FileStep f g → FileStep g k → FileStep f k
FileStep-trans f g k (same p) (same q) = same (q ∙ p)
FileStep-trans f g k (same p) (created r a b w) = created r (sym p ∙ a) b w
FileStep-trans f g k (same p) (moved r r' a b w e) = moved r r' (sym p ∙ a) b w e
FileStep-trans f g k (created r a b w) (same q) = created r a (q ∙ b) w
FileStep-trans f g k (created r a b w) (created r' a' b' w') = absent_or_valid r g a' b
FileStep-trans f g k (created r a b w) (moved s s' a' b' w' e') =
    created s' a b' (Reach-trans w (reach_from r s s'.state (same_record r s (sym b ∙ a')) w'))
FileStep-trans f g k (moved r r' a b w e) (same q) = moved r r' a (q ∙ b) w e
FileStep-trans f g k (moved r r' a b w e) (created s a' b' w') = absent_or_valid r' g a' b
FileStep-trans f g k (moved r r' a b w e) (moved s s' a' b' w' e') =
    let p = same_record r' s (sym b ∙ a') in
    moved r s' a b' (Reach-trans w (reach_from r' s s'.state p w'))
      (e' ∙ ap (λ (x : SessionRecord). x.system_id) (sym p) ∙ e)

-- Every record stands in the file that its identifier names.
pub record IsFiled (h : Host) : Type 0 where
  pub at_file :
      (k : String) (r : SessionRecord) → lookup k h.files ≡ some (valid r) → r.session_id ≡ k

-- An audit line that records a transition names one that `TRANSITIONS` permits.
abbrev pub IsPermitted : Detail → Type 0
IsPermitted ((_, state_text s) ∷ (_, state_text t) ∷ _) = allowed s t ≡ true
IsPermitted _ = Unit

-- The audit log has grown by such lines.
pub data Trail (old : List AuditEntry) : List AuditEntry → Type 0 where
  as_before : Trail old old
  one_more :
      {new : List AuditEntry} (entry : AuditEntry)
      → Trail old new
      → IsPermitted entry.detail
      → Trail old (new ++ entry ∷ [])

Trail-trans :
    {old middle new : List AuditEntry} → Trail old middle → Trail middle new → Trail old new
Trail-trans p as_before = p
Trail-trans p (one_more entry q e) = one_more entry (Trail-trans p q) e

pub Trail-same : {old new : List AuditEntry} → new ≡ old → Trail old new
Trail-same {old} {new} e = subst (Trail old) (sym e) as_before

pub record Kept (h h' : Host) : Type 0 where
  pub filed : IsFiled h'
  pub trail : Trail h.audits h'.audits
  pub steps : (k : String) → FileStep (lookup k h.files) (lookup k h'.files)

abbrev pub Lawful : Host → Host → Type 0
Lawful h h' = IsFiled h → Kept h h'

pub Lawful-refl : (h : Host) → Lawful h h
Lawful-refl h filed = record { filed = filed; trail = as_before; steps = λ k. same refl }

pub Kept-trans : (h h' h'' : Host) → Kept h h' → Kept h' h'' → Kept h h''
Kept-trans h h' h'' first second = record {
  filed = second.filed;
  trail = Trail-trans first.trail second.trail;
  steps = λ k.
      FileStep-trans (lookup k h.files) (lookup k h'.files) (lookup k h''.files) (first.steps k)
        (second.steps k);
}

pub Lawful-trans : (h h' h'' : Host) → Lawful h h' → Lawful h' h'' → Lawful h h''
Lawful-trans h h' h'' p q filed = let first = p filed in Kept-trans h h' h'' first (q first.filed)

-- The frame of all the broker's operations.
unfoldable pub history : Frame Host
history = record { relates = Lawful; refl_at = Lawful-refl; trans_at = Lawful-trans }

pub same_files : (h h' : Host) → h'.files ≡ h.files → Trail h.audits h'.audits → Lawful h h'
same_files h h' e trail filed = record {
  filed = record { at_file = λ k r p. filed.at_file k r (ap (lookup k) (sym e) ∙ p) };
  trail = trail;
  steps = λ k. same (ap (lookup k) e);
}

-- An operation that leaves the state files and the audit log alone is lawful.
pub Within-same_files :
    {A : Type 0} (m : Exec Host A)
    → ((h : Host) → (m h).1.files ≡ h.files)
    → ((h : Host) → (m h).1.audits ≡ h.audits)
    → Within history m
unfolding history
Within-same_files m e a = record { at = λ h. same_files h (m h).1 (e h) (Trail-same (a h)) }

pub load-history : (id : String) → Within history (load id)
unfolding load
load-history id = Within-same_files (load id) (λ h. refl) (λ h. refl)

pub all-history : (strict : Bool) → Within history (all strict)
unfolding all
all-history strict = Within-same_files (all strict) (λ h. refl) (λ h. refl)

pub files-write_state : (h : Host) → (write_state h).1.files ≡ h.files
unfolding write_state
files-write_state h = files_taken h.write_faults
  where
    files_taken : (faults : List Bool) → (take_write faults h).1.files ≡ h.files
    files_taken [] = refl
    files_taken (false ∷ rest) = refl
    files_taken (true ∷ rest) = refl

pub audits-write_state : (h : Host) → (write_state h).1.audits ≡ h.audits
unfolding write_state
audits-write_state h = audits_taken h.write_faults
  where
    audits_taken : (faults : List Bool) → (take_write faults h).1.audits ≡ h.audits
    audits_taken [] = refl
    audits_taken (false ∷ rest) = refl
    audits_taken (true ∷ rest) = refl

write_state-history : Within history write_state
write_state-history = Within-same_files write_state files-write_state audits-write_state

append-history :
    (event : String) (r : Option SessionRecord) (detail : Detail)
    → IsPermitted detail
    → Within history (append event r detail)
unfolding append history
append-history event r detail p = record {
  at = λ h. same_files h (append event r detail h).1 refl (one_more _ as_before p);
}

pub audit-history :
    (event : String) (r : Option SessionRecord) (detail : Detail)
    → IsPermitted detail
    → Within history (audit event r detail)
unfolding audit
audit-history event r detail p =
    Within-bind write_state _ write_state-history λ _. append-history event r detail p

pub nothing_more : Unit {0}
nothing_more = tt

-- What `commit` writes.
files-commit :
    (r : SessionRecord) (h : Host) (k : String)
    → lookup k (commit r h).1.files
      ≡ (if str_eq r.session_id k then some (valid (stamp h r)) else lookup k h.files)
unfolding commit
files-commit r h k = rw lookup-put

audits-commit : (r : SessionRecord) (h : Host) → Trail h.audits (commit r h).1.audits
unfolding commit
audits-commit r h = as_before

-- A record that is written under its own name keeps the files in order.
commit-IsFiled : (r : SessionRecord) (h : Host) → IsFiled h → IsFiled (commit r h).1
commit-IsFiled r h filed = record {
  at_file = λ k s e. ground (arith, files-commit r h k, eq_iff r.session_id k, filed.at_file k s);
}

-- `r` is what its file holds, or has been made from that by permitted transitions and by setting
-- other fields.
pub record IsDerived (r : SessionRecord) (h : Host) : Type 0 where
  pub stored : SessionRecord
  pub found : lookup r.session_id h.files ≡ some (valid stored)
  pub reached : Reach stored.state r.state
  pub kept_system : r.system_id ≡ stored.system_id

module _ (r : SessionRecord) (h : Host) where
  found_after_save :
      (k : String) (filed : IsFiled h) (d : IsDerived r h)
      → r.session_id ≡ k
      → FileStep (lookup k h.files) (lookup k (commit r h).1.files)
  found_after_save k filed d e =
      moved d.stored (stamp h r) (ap (λ j. lookup j h.files) (sym e) ∙ d.found)
        (files-commit r h k ∙ ground (arith, eq_iff r.session_id k)) d.reached d.kept_system

  other_after_save :
      (k : String)
      → str_eq r.session_id k ≡ false
      → FileStep (lookup k h.files) (lookup k (commit r h).1.files)
  other_after_save k e = same (files-commit r h k ∙ ground arith)

  -- Saving a derived record is lawful.
  pub commit-Kept : IsFiled h → IsDerived r h → Kept h (commit r h).1
  commit-Kept filed d = record {
    filed = commit-IsFiled r h filed;
    trail = audits-commit r h;
    steps = λ k. elim (Bool-cases (str_eq r.session_id k)) [
      | inl e ↦ found_after_save k filed d ((eq_iff r.session_id k).0 e)
      | inr e ↦ other_after_save k e
    ];
  }

  -- So is saving a new one where there is no file.
  pub commit_new-Kept :
      IsFiled h
      → lookup r.session_id h.files ≡ none
      → Reach requested r.state
      → Kept h (commit r h).1
  commit_new-Kept filed free w = record {
    filed = commit-IsFiled r h filed;
    trail = audits-commit r h;
    steps = λ k. elim (Bool-cases (str_eq r.session_id k)) [
      | inl e ↦
          created (stamp h r)
            (ap (λ j. lookup j h.files) (sym ((eq_iff r.session_id k).0 e)) ∙ free)
            (files-commit r h k ∙ ground arith) w
      | inr e ↦ other_after_save k e
    ];
  }

  -- After `commit` the file holds the stamped record.
  pub commit-IsDerived : IsDerived (stamp h r) (commit r h).1
  commit-IsDerived = record {
    stored = stamp h r;
    found = files-commit r h r.session_id ∙ ground (arith, eq_iff r.session_id r.session_id);
    reached = here;
    kept_system = refl;
  }
