-- ===== src/Supervisor/Exit.antt =====
-- The exit status of broker/supervisor.py: what the end of the emulator comes to.
use unixtime_machine.Prelude.{
  ◌≡◌, refl, ap, ℕ, Bool, true, false, ◌&&◌, ◌||◌, Bool-cases, inl, inr, List, [], ◌∷◌, ◌++◌, some,
  arith,
}
use unixtime_machine.Prelude.Int.{ℤ}
use unixtime_machine.Prelude.Dict.{lookup}
use unixtime_machine.Exec.{Exec, Outcome, ok, raised, pure, choose, lift, when, ◌>>=◌}
use unixtime_machine.Models.{SessionRecord, same_state, stopping, failed}
use unixtime_machine.Store.{load, load_outcome, take_write, write_state, commit, save}
use unixtime_machine.Supervisor.State.{Machine, reads, note, sets, update, update_record, on_host}
use unixtime_machine.Supervisor.Deadlines.{
  in_exit, unconfirmed_exit, unexpected_exit, end_session, emulator_exit,
}

abbrev Returning : {A : Type 0} → (A → Type 0) → Outcome A → Type 0
Returning Q (ok a) = Q a
Returning Q (raised e) = Unit

-- Whatever `m` returns is `n`.
record Gives (m : Exec Machine ℕ) (n : ℕ) : Type 0 where
  at : (s : Machine) → Returning (λ k. k ≡ n) (m s).0

Gives-pure : (n : ℕ) → Gives (pure n) n
unfolding pure
Gives-pure n = record { at = λ s. refl }

followed :
    {A : Type 0} (o : Outcome A) (f : A → Exec Machine ℕ) (n : ℕ) (t : Machine)
    → ((a : A) → Gives (f a) n)
    → Returning (λ k. k ≡ n) ((lift o >>= f) t).0
unfolding ◌>>=◌ lift
followed (ok a) f n t gf = (gf a).at t
followed (raised e) f n t gf = tt

Gives-bind :
    {A : Type 0} (m : Exec Machine A) (f : A → Exec Machine ℕ) (n : ℕ)
    → ((a : A) → Gives (f a) n)
    → Gives (m >>= f) n
unfolding ◌>>=◌ followed lift
Gives-bind m f n gf = record { at = λ s. followed (m s).0 f n (m s).1 gf }

ruleset status_rules = (Gives-pure, Gives-bind)

unconfirmed_exit-Gives : (code : ℤ) → Gives (unconfirmed_exit code) 2
unfolding unconfirmed_exit
unconfirmed_exit-Gives code = search status_rules depth 9

unexpected_exit-Gives : (code : ℤ) → Gives (unexpected_exit code) 2
unfolding unexpected_exit
unexpected_exit-Gives code = search status_rules depth 9

-- The two ways to end well.
abbrev pub may_release : Bool → SessionRecord → Bool
may_release confirmed r = same_state r.state stopping && confirmed || same_state r.state failed

abbrev Cleared : Bool → SessionRecord → ℕ → Type 0
Cleared confirmed r n = n ≡ 0 → may_release confirmed r ≡ true

when_allowed :
    (confirmed : Bool) (r : SessionRecord) (o : Outcome ℕ)
    → may_release confirmed r ≡ true
    → Returning (Cleared confirmed r) o
when_allowed confirmed r (ok n) e = λ _. e
when_allowed confirmed r (raised x) e = tt

when_refused :
    (confirmed : Bool) (r : SessionRecord) (o : Outcome ℕ)
    → Returning (λ k. k ≡ 2) o
    → Returning (Cleared confirmed r) o
when_refused confirmed r (ok n) e = λ z. absurd (omega (arith, e, z))
when_refused confirmed r (raised x) e = tt

end_session-Cleared :
    (confirmed : Bool) (code : ℤ) (r : SessionRecord) (s : Machine)
    → Returning (Cleared confirmed r) (end_session confirmed code r s).0
unfolding end_session choose
end_session-Cleared confirmed code r s = elim (Bool-cases (same_state r.state stopping)) [
  | inl a ↦ elim (Bool-cases confirmed) [
    | inl b ↦ when_allowed confirmed r _ (ground arith)
    | inr b ↦
        rw (a, b)
          (when_refused false r (unconfirmed_exit code s).0 ((unconfirmed_exit-Gives code).at s))
  ]
  | inr a ↦ elim (Bool-cases (same_state r.state failed)) [
    | inl b ↦ when_allowed confirmed r _ (ground arith)
    | inr b ↦
        rw (a, b)
          (when_refused confirmed r (unexpected_exit code s).0 ((unexpected_exit-Gives code).at s))
  ]
]

abbrev stored : Machine → Outcome SessionRecord
stored m = load_outcome m.sup.session_id (lookup m.sup.session_id m.host.files)

-- The write of a changed record, whatever comes of it.
written :
    (changes : SessionRecord → SessionRecord) (Q : SessionRecord → ℕ → Type 0)
    (f : SessionRecord → Exec Machine ℕ) (r : SessionRecord) (m : Machine) (faults : List Bool)
    → ((q : SessionRecord) (s : Machine) → q.state ≡ (changes r).state → Returning (Q r) (f q s).0)
    → Returning (Q r) ((on_host (take_write faults >>= λ _. commit (changes r)) >>= f) m).0
unfolding ◌>>=◌ on_host commit
written changes Q f r m [] qf = qf _ _ refl
written changes Q f r m (false ∷ rest) qf = qf _ _ refl
written changes Q f r m (true ∷ rest) qf = tt

-- The update that precedes the verdict does not change the state.
updated :
    (changes : SessionRecord → SessionRecord) (Q : SessionRecord → ℕ → Type 0)
    (f : SessionRecord → Exec Machine ℕ) (r : SessionRecord) (m : Machine)
    → stored m ≡ ok r
    → ((q : SessionRecord) (s : Machine) → q.state ≡ (changes r).state → Returning (Q r) (f q s).0)
    → Returning (Q r) ((update changes >>= f) m).0
unfolding ◌>>=◌ update reads on_host update_record load save write_state written
updated changes Q f r m e qf = rw e (written changes Q f r m (m.host.write_faults) qf)

moved_state :
    (confirmed : Bool) (q r : SessionRecord)
    → q.state ≡ r.state
    → may_release confirmed q ≡ may_release confirmed r
moved_state confirmed q r e = ap (λ s. same_state s stopping && confirmed || same_state s failed) e

carried :
    (confirmed : Bool) (q r : SessionRecord) (o : Outcome ℕ)
    → q.state ≡ r.state
    → Returning (Cleared confirmed q) o
    → Returning (Cleared confirmed r) o
carried confirmed q r (ok n) e c = λ z. rw (← moved_state confirmed q r e) (c z)
carried confirmed q r (raised x) e c = tt

abbrev with_exit : ℤ → Machine → SessionRecord → SessionRecord
with_exit code m q = record q { exit_code = some code; stop_reason = m.sup.stop_reason }

emulator_exit-Cleared :
    (code : ℤ) (m : Machine) (r : SessionRecord)
    → stored m ≡ ok r
    → Returning (Cleared (in_exit m.sup.shutdown_phase) r) (emulator_exit code m).0
unfolding emulator_exit ◌>>=◌ reads when note sets updated
emulator_exit-Cleared code m r e = elim (Bool-cases (in_exit m.sup.shutdown_phase)) [
  | inl b ↦ rw b (
      updated (with_exit code m) (Cleared true) (end_session true code) r
        (record m { sup = record m.sup { notes = m.sup.notes ++ "emulator exit observed" ∷ [] } }) e
        (λ q s p. carried true q r _ p (end_session-Cleared true code q s)))
  | inr b ↦ rw b (
      updated (with_exit code m) (Cleared false) (end_session false code) r m e
        (λ q s p. carried false q r _ p (end_session-Cleared false code q s)))
]

from_status :
    (confirmed : Bool) (r : SessionRecord) (x : Outcome ℕ × Machine) (m' : Machine)
    → Returning (Cleared confirmed r) x.0
    → x ≡ (ok 0, m')
    → may_release confirmed r ≡ true
from_status confirmed r (ok n, t) m' c e = c (cc)
from_status confirmed r (raised y, t) m' c e = absurd (cc)

-- Where the session's file holds a record, the end of the emulator makes the supervisor end with
-- status 0, which releases the session, only if the session was stopping with the handshake in the
-- phase `exit`, or the session had failed.
pub status_zero_confirmed :
    (code : ℤ) (m m' : Machine) (r : SessionRecord)
    → load_outcome m.sup.session_id (lookup m.sup.session_id m.host.files) ≡ ok r
    → emulator_exit code m ≡ (ok 0, m')
    → may_release (in_exit m.sup.shutdown_phase) r ≡ true
status_zero_confirmed code m m' r e z =
    from_status (in_exit m.sup.shutdown_phase) r (emulator_exit code m) m'
      (emulator_exit-Cleared code m r e) z
