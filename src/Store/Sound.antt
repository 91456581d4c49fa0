-- ===== src/Store/Sound.antt =====
-- Rules for the operations on broker/store.py that load a record, change it and write it back.
use unixtime_machine.Prelude.{
  ◌≡◌, refl, sym, subst, ap, ◌∙◌, Bool, true, false, not, Option, none, some, ◌∷◌, String,
}
use unixtime_machine.Prelude.Dict.{lookup}
use unixtime_machine.Errors.{Error, invalid_transition}
use unixtime_machine.Exec.{
  Outcome, ok, raised, Exec, pure, raise, raise_if, gets, when, modify, rescue, Action, ◌>>=◌, lift,
  choose,
}
use unixtime_machine.Exec.Frame.{Within}
use unixtime_machine.Models.{SessionState, SessionRecord, value, allowed}
use unixtime_machine.Models.Reachable.{Reach, here, next}
use unixtime_machine.Host.{
  Host, StateFile, valid, no_mapping, mistyped, unreadable, Detail, state_text,
}
use unixtime_machine.Store.{
  load, load_outcome, write_state, commit, append, save, audit, transition,
}
use unixtime_machine.Store.Filed.{
  IsFiled, IsDerived, Kept, Kept-trans, Lawful-refl, history, same_files, commit-Kept,
  commit-IsDerived, files-write_state,
}
use unixtime_machine.Store.Filed.{audits-write_state, Trail-same, IsPermitted, one_more, as_before}

abbrev pub Returned : {A : Type 0} → (A → Host → Type 0) → Outcome A × Host → Type 0
Returned Q (ok a, h) = Q a h
Returned Q (raised _, h) = Unit

-- From a host where `P` holds, `m` is lawful, and what it returns satisfies `Q`.
pub record Sound {A : Type 0} (P : Host → Type 0) (m : Exec Host A) (Q : A → Host → Type 0)
    : Type 0 where
  pub at : (h : Host) → IsFiled h → P h → Kept h (m h).1 × Returned Q (m h)

abbrev pub Anything : {A : Type 0} → A → Host → Type 0
Anything _ _ = Unit

abbrev pub Always : Host → Type 0
Always _ = Unit

pub Sound-Within :
    {A : Type 0} {Q : A → Host → Type 0} (m : Exec Host A) → Sound Always m Q → Within history m
unfolding history
Sound-Within m s = record { at = λ h filed. (s.at h filed tt).0 }

returned-Anything : {A : Type 0} (o : Outcome A) (h : Host) → Returned Anything (o, h)
returned-Anything (ok a) h = tt
returned-Anything (raised e) h = tt

pub Within-Sound :
    {A : Type 0} {P : Host → Type 0} (m : Exec Host A) → Within history m → Sound P m Anything
unfolding history
Within-Sound m w = record { at = λ h filed p. (w.at h filed, returned-Anything (m h).0 (m h).1) }

bound :
    {A B : Type 0} {Q : A → Host → Type 0} {R : B → Host → Type 0} (o : Outcome A)
    (f : A → Exec Host B) (h t : Host)
    → Kept h t
    → Returned Q (o, t)
    → ((a : A) → Sound (Q a) (f a) R)
    → Kept h ((lift o >>= f) t).1 × Returned R ((lift o >>= f) t)
unfolding ◌>>=◌ lift
bound (ok a) f h t k q sf =
    let (later, r) = (sf a).at t k.filed q in (Kept-trans h t (f a t).1 k later, r)
bound (raised e) f h t k q sf = (k, tt)

module _ {A B : Type 0} {P : Host → Type 0} {Q : A → Host → Type 0} {R : B → Host → Type 0} where
  pub Sound-bind :
      (m : Exec Host A) (f : A → Exec Host B)
      → Sound P m Q
      → ((a : A) → Sound (Q a) (f a) R)
      → Sound P (m >>= f) R
  unfolding bound ◌>>=◌ lift
  Sound-bind m f sm sf = record {
    at = λ h filed p. let (k, q) = sm.at h filed p in bound (m h).0 f h (m h).1 k q sf;
  }

module _ {A : Type 0} {P : Host → Type 0} {Q : A → Host → Type 0} where
  pub Sound-pure : (a : A) → ((h : Host) → P h → Q a h) → Sound P (pure a) Q
  unfolding pure
  Sound-pure a q = record { at = λ h filed p. (Lawful-refl h filed, q h p) }

  pub Sound-raise : (e : Error) → Sound P (raise e) Q
  unfolding raise
  Sound-raise e = record { at = λ h filed p. (Lawful-refl h filed, tt) }

  pub Sound-or :
      (b : Bool) (m n : Exec Host A) → Sound P m Q → Sound P n Q → Sound P (choose b m n) Q
  unfolding choose
  Sound-or true m n sm sn = sm
  Sound-or false m n sm sn = sn

module _ {P : Host → Type 0} where
  pub Sound-raise_if : (b : Bool) (e : Error) → Sound P (raise_if b e) (λ _. P)
  unfolding raise_if
  Sound-raise_if true e = record { at = λ h filed p. (Lawful-refl h filed, tt) }
  Sound-raise_if false e = record { at = λ h filed p. (Lawful-refl h filed, p) }

-- After `if not b: raise e` the test has passed.
pub Sound-guard :
    {P Q : Host → Type 0} (b : Bool) (e : Error)
    → ((h : Host) → P h → b ≡ true → Q h)
    → Sound P (raise_if (not b) e) (λ _. Q)
unfolding raise_if
Sound-guard true e q = record { at = λ h filed p. (Lawful-refl h filed, q h p refl) }
Sound-guard false e q = record { at = λ h filed p. (Lawful-refl h filed, tt) }

-- A loaded record is what its file holds.
pub Sound-load : (id : String) → Sound Always (load id) IsDerived
unfolding load
Sound-load id = record {
  at = λ h filed p. (Lawful-refl h filed, loaded h filed (lookup id h.files) refl);
}
  where
    loaded :
        (h : Host)
        → IsFiled h
        → (f : Option StateFile) → lookup id h.files ≡ f
        → Returned IsDerived (load_outcome id f, h)
    loaded h filed none e = tt
    loaded h filed (some (valid r)) e = record {
      stored = r;
      found = ap (λ k. lookup k h.files) (filed.at_file id r e) ∙ e;
      reached = here;
      kept_system = refl;
    }
    loaded h filed (some no_mapping) e = tt
    loaded h filed (some mistyped) e = tt
    loaded h filed (some unreadable) e = tt

-- A write that fails changes no file.
pub Sound-write_state :
    {P : Host → Type 0}
    → ((h t : Host) → t.files ≡ h.files → P h → P t)
    → Sound P write_state (λ _. P)
Sound-write_state {P = P} kept = record {
  at = λ h filed p.
      let same = files-write_state h in
      (
        same_files h (write_state h).1 same (Trail-same (audits-write_state h)) filed,
        returned (write_state h).0 (write_state h).1 (kept h (write_state h).1 same p),
      );
}
  where
    returned : (o : Outcome Unit) (t : Host) → P t → Returned (λ _. P) (o, t)
    returned (ok a) t p = p
    returned (raised e) t p = tt

IsDerived-same :
    (s : SessionRecord) (h t : Host) → t.files ≡ h.files → IsDerived s h → IsDerived s t
IsDerived-same s h t e p = record {
  stored = p.stored;
  found = ap (lookup s.session_id) e ∙ p.found;
  reached = p.reached;
  kept_system = p.kept_system;
}

Sound-append :
    (event : String) (r : Option SessionRecord) (detail : Detail) (s : SessionRecord)
    → IsPermitted detail
    → Sound (IsDerived s) (append event r detail) (λ _. IsDerived s)
unfolding append
Sound-append event r detail s allow = record {
  at = λ h filed p.
      let t = (append event r detail h).1 in
      (same_files h t refl (one_more _ as_before allow) filed, IsDerived-same s h t refl p);
}

pub Sound-audit :
    (event : String) (r : Option SessionRecord) (detail : Detail) (s : SessionRecord)
    → IsPermitted detail
    → Sound (IsDerived s) (audit event r detail) (λ _. IsDerived s)
unfolding audit
Sound-audit event r detail s allow =
    Sound-bind write_state _ (Sound-write_state (IsDerived-same s))
      λ _. Sound-append event r detail s allow

Sound-commit : (r : SessionRecord) → Sound (IsDerived r) (commit r) IsDerived
unfolding commit
Sound-commit r = record { at = λ h filed p. (commit-Kept r h filed p, commit-IsDerived r h) }

pub Sound-save : (r : SessionRecord) → Sound (IsDerived r) (save r) IsDerived
unfolding save
Sound-save r = Sound-bind write_state _ (Sound-write_state (IsDerived-same r)) λ _. Sound-commit r

pub Sound-weaken :
    {A : Type 0} {P P' : Host → Type 0} {Q : A → Host → Type 0} (m : Exec Host A)
    → ((h : Host) → P h → P' h)
    → Sound P' m Q
    → Sound P m Q
Sound-weaken m w s = record { at = λ h filed p. s.at h filed (w h p) }

-- After `if not b: raise e` the rest may use that the test has passed.
Sound-allowed :
    {A : Type 0} {P : Host → Type 0} {Q : A → Host → Type 0} (b : Bool) (e : Error)
    (m : Exec Host A)
    → (b ≡ true → Sound P m Q)
    → Sound P (raise_if (not b) e >>= λ _. m) Q
unfolding raise_if ◌>>=◌
Sound-allowed true e m s = record { at = (s refl).at }
Sound-allowed false e m s = record { at = λ h filed p. (Lawful-refl h filed, tt) }

-- A transition that is refused raises; one that is permitted extends the way from the stored state.
pub Sound-transition :
    (r : SessionRecord) (state : SessionState) (event : String) (detail : Detail)
    → Sound (IsDerived r) (transition r state event detail) IsDerived
unfolding transition
Sound-transition r state event detail =
    Sound-allowed (allowed r.state state) (invalid_transition (value r.state) (value state)) _ λ e.
      Sound-weaken _
        (λ h d. record {
          stored = d.stored;
          found = d.found;
          reached = next d.reached e;
          kept_system = d.kept_system;
        })
        (Sound-bind (save r') _ (Sound-save r') λ saved.
          Sound-bind (audit event (some saved) moves) _
            (Sound-audit event (some saved) moves saved e) λ _. Sound-pure saved (λ h d. d))
  where
    r' : SessionRecord
    r' = record r { state = state }

    moves : Detail
    moves = ("from", state_text r.state) ∷ ("to", state_text state) ∷ detail

-- After `if b: raise e` the test has failed.
pub Sound-refuse :
    {P Q : Host → Type 0} (b : Bool) (e : Error)
    → ((h : Host) → P h → b ≡ false → Q h)
    → Sound P (raise_if b e) (λ _. Q)
unfolding raise_if
Sound-refuse true e q = record { at = λ h filed p. (Lawful-refl h filed, tt) }
Sound-refuse false e q = record { at = λ h filed p. (Lawful-refl h filed, q h p refl) }

-- What is read is known of the state it is read from.
pub Sound-gets : {A : Type 0} {P : Host → Type 0} (f : Host → A) → Sound P (gets f) (λ a h. a ≡ f h)
unfolding gets
Sound-gets f = record { at = λ h filed p. (Lawful-refl h filed, refl) }

-- Other fields of a record in hand may be set.
pub relabel :
    (r r' : SessionRecord)
    → r.session_id ≡ r'.session_id
    → r.state ≡ r'.state
    → r.system_id ≡ r'.system_id
    → (h : Host) → IsDerived r h
    → IsDerived r' h
relabel r r' same_id same_state same_system h d = record {
  stored = d.stored;
  found = ap (λ k. lookup k h.files) (sym same_id) ∙ d.found;
  reached = subst (Reach d.stored.state) same_state d.reached;
  kept_system = sym same_system ∙ d.kept_system;
}

pub Sound-when :
    {P : Host → Type 0} (b : Bool) (m : Action Host)
    → Sound P m Anything
    → Sound P (when b m) Anything
unfolding when
Sound-when true m s = record { at = s.at }
Sound-when false m s = record { at = λ h filed p. (Lawful-refl h filed, tt) }

module _ (r : SessionRecord) where
  -- The record in hand stays derived while the state files are left alone.
  pub Sound-keep :
      (f : Host → Host)
      → ((h : Host) → (f h).files ≡ h.files)
      → ((h : Host) → (f h).audits ≡ h.audits)
      → Sound (IsDerived r) (modify f) (λ _. IsDerived r)
  unfolding modify
  Sound-keep f e a = record {
    at = λ h filed d. (
      same_files h (f h) (e h) (Trail-same (a h)) filed,
      record {
        stored = d.stored;
        found = ap (lookup r.session_id) (e h) ∙ d.found;
        reached = d.reached;
        kept_system = d.kept_system;
      },
    );
  }

  pub Sound-read : {A : Type 0} (f : Host → A) → Sound (IsDerived r) (gets f) (λ _. IsDerived r)
  unfolding gets
  Sound-read f = record { at = λ h filed d. (Lawful-refl h filed, d) }

  pub Sound-lift : {A : Type 0} (o : Outcome A) → Sound (IsDerived r) (lift o) (λ _. IsDerived r)
  unfolding lift
  Sound-lift (ok a) = record { at = λ h filed d. (Lawful-refl h filed, d) }
  Sound-lift (raised e) = record { at = λ h filed d. (Lawful-refl h filed, tt) }

handled :
    {A : Type 0} {Q : A → Host → Type 0} (o : Outcome A) (k : Error → Exec Host A) (h t : Host)
    → Kept h t
    → Returned Q (o, t)
    → ((e : Error) → Sound Always (k e) Q)
    → Kept h (rescue (lift o) k t).1 × Returned Q (rescue (lift o) k t)
unfolding rescue lift
handled (ok a) k h t kept q sk = (kept, q)
handled (raised e) k h t kept q sk =
    let (later, r) = (sk e).at t kept.filed tt in (Kept-trans h t (k e t).1 kept later, r)

pub Sound-rescue :
    {A : Type 0} {P : Host → Type 0} {Q : A → Host → Type 0} (m : Exec Host A)
    (k : Error → Exec Host A)
    → Sound P m Q
    → ((e : Error) → Sound Always (k e) Q)
    → Sound P (rescue m k) Q
unfolding rescue handled lift
Sound-rescue m k sm sk = record {
  at = λ h filed p. let (kept, q) = sm.at h filed p in handled (m h).0 k h (m h).1 kept q sk;
}
