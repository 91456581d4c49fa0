-- ===== src/Command/Evidence.antt =====
-- scripts/utm.py `cmd_system_stop` and the end of `cmd_system_start`: what is recorded of a stop.
use unixtime_machine.Prelude.{
  ℕ, ◌≡◌, refl, sym, ◌∙◌, ap, Bool, true, false, not, [], ◌∷◌, Option, some, String, arith,
  if◌then◌else◌,
}
use unixtime_machine.Prelude.Int.{ℤ}
use unixtime_machine.Prelude.Dict.{Dict, lookup, put, lookup-put}
use unixtime_machine.Errors.{
  Error, other_session, recorded_process_gone, one_attestation, emulator_not_stopped,
}
use unixtime_machine.Outcome.{Outcome, ok, raised}
use unixtime_machine.Exec.{Exec, gets, lift, pure, modify, raise_if, ◌>>=◌}
use unixtime_machine.Exec.Leads.{
  Leads, Leads-pure, Leads-bind, Leads-gets, Leads-lift, Leads-modify, Leads-raise_if, Leads-result,
  Leads-any,
}
use unixtime_machine.Process.{pid_alive}
use unixtime_machine.Command.{
  Termination, Entry, termination_entry, number_entry, StateText, state, no_state, bad_state,
  other_state, Desk, write_state, read_state, pid_of, is_other_session, StopArguments, StopScene,
  sent, interrupt, same_flag, stopped_state, await_exit, system_stop, merge, exit_entry,
  record_exit,
}

-- An action that raises and leaves the state alone.
pub record Refuses {S A : Type 0} (m : Exec S A) (s : S) : Type 0 where
  pub error : Error
  pub result : m s ≡ (raised error, s)

module _ {S A B : Type 0} where
  Refuses-gets :
      (g : S → A) (f : A → Exec S B) (s : S)
      → ((a : A) → Refuses (f a) s)
      → Refuses (gets g >>= f) s
  unfolding ◌>>=◌ gets
  Refuses-gets g f s r = let k = r (g s) in record { error = k.error; result = k.result }

  Refuses-lift :
      (o : Outcome A) (f : A → Exec S B) (s : S)
      → ((a : A) → Refuses (f a) s)
      → Refuses (lift o >>= f) s
  unfolding ◌>>=◌ lift
  Refuses-lift (ok a) f s r = let k = r a in record { error = k.error; result = k.result }
  Refuses-lift (raised e) f s r = record { error = e; result = refl }

module _ {S B : Type 0} where
  Refuses-raise_if :
      (b : Bool) (e : Error) (f : Unit → Exec S B) (s : S)
      → ((u : Unit) → b ≡ false → Refuses (f u) s)
      → Refuses (raise_if b e >>= f) s
  unfolding ◌>>=◌ raise_if
  Refuses-raise_if true e f s r = record { error = e; result = refl }
  Refuses-raise_if false e f s r =
      let k = r tt refl in record { error = k.error; result = k.result }

same_flag_refl : (b : Bool) → same_flag b b ≡ true
same_flag_refl true = refl
same_flag_refl false = refl

true_or_false : {A : Type 0} (b : Bool) → b ≡ true → b ≡ false → A
true_or_false b p q = absurd (cc)

-- A stop of a system that attests both a synced guest and a failed boot, or neither, raises: it
-- writes nothing and signals no process, whatever the state file holds.
pub system_stop-Refuses :
    (arguments : StopArguments) (scene : StopScene) (desk : Desk)
    → arguments.guest_synced ≡ arguments.failed_boot
    → Refuses (system_stop arguments scene) desk
unfolding system_stop
system_stop-Refuses arguments scene desk same =
    let one = same_flag arguments.guest_synced in
    Refuses-gets (λ d. d.file) _ desk
      λ file. Refuses-lift (read_state file) _ desk λ entries.
        let session = lookup "session_id" entries in
        Refuses-raise_if (is_other_session arguments.session_id session) other_session _ desk λ _ _.
          Refuses-lift (pid_of (lookup "pid" entries)) _ desk λ pid.
            Refuses-raise_if (not (pid_alive (scene.probe pid))) recorded_process_gone _ desk λ _ _.
              Refuses-raise_if (one arguments.failed_boot) one_attestation _ desk λ _ differ.
                true_or_false (one arguments.failed_boot)
                  (ap one (sym same) ∙ same_flag_refl arguments.guest_synced) differ

-- What a stop that returns has found and written.
pub record IsStopped (arguments : StopArguments) (scene : StopScene) (desk t : Desk) : Type 0 where
  pub entries : Dict Entry
  pub found : desk.file ≡ state entries
  pub attested : same_flag arguments.guest_synced arguments.failed_boot ≡ false
  pub written : t.file ≡ state (stopped_state arguments scene entries)

read_back :
    (file : StateText) (entries : Dict Entry) → read_state file ≡ ok entries → file ≡ state entries
read_back no_state entries e = absurd (cc)
read_back bad_state entries e = absurd (cc)
read_back other_state entries e = absurd (cc)
read_back (state found) entries e = cc

module _ (arguments : StopArguments) (scene : StopScene) (desk : Desk) where
  after_checks :
      (entries : Dict Entry) (pid : ℤ) (d : Desk)
      → desk.file ≡ state entries
      → Leads {A = ℕ}
          (raise_if (same_flag arguments.guest_synced arguments.failed_boot) one_attestation
            >>= λ _. lift (sent scene.refused) >>= λ _. modify (interrupt pid) >>= λ _.
                await_exit scene.rounds >>= λ gone.
                raise_if (not gone) emulator_not_stopped >>= λ _.
                modify (write_state (stopped_state arguments scene entries)) >>= λ _. pure 0)
          d
          (λ _ t. IsStopped arguments scene desk t)
  after_checks entries pid d found =
      let both = same_flag arguments.guest_synced arguments.failed_boot in
      Leads-bind {P = λ _ _. both ≡ false} (raise_if both one_attestation) _ d
        (Leads-raise_if both one_attestation d λ one. one)
        λ _ d1 one.
          Leads-bind {P = λ _ _. Unit} (lift (sent scene.refused)) _ d1
            (Leads-lift (sent scene.refused) d1 λ _ _. tt)
            λ _ d2 _.
              Leads-bind {P = λ _ _. Unit} (modify (interrupt pid)) _ d2
                (Leads-modify (interrupt pid) d2 tt)
                λ _ d3 _.
                  Leads-bind {P = λ _ _. Unit} (await_exit scene.rounds) _ d3 (Leads-any _ d3)
                    λ gone d4 _.
                      Leads-bind {P = λ _ _. Unit} (raise_if (not gone) emulator_not_stopped) _ d4
                        (Leads-raise_if (not gone) emulator_not_stopped d4 λ _. tt)
                        λ _ d5 _.
                          Leads-bind {P = λ _ t. IsStopped arguments scene desk t}
                            (modify (write_state (stopped_state arguments scene entries))) _ d5
                            (Leads-modify (write_state (stopped_state arguments scene entries)) d5
                              (record {
                                entries = entries;
                                found = found;
                                attested = one;
                                written = refl;
                              }))
                            λ _ t stopped. Leads-pure 0 t stopped

  system_stop-IsStopped :
      Leads (system_stop arguments scene) desk (λ _ t. IsStopped arguments scene desk t)
  unfolding system_stop
  system_stop-IsStopped =
      Leads-bind {P = λ file d. file ≡ desk.file} (gets (λ d. d.file)) _ desk
        (Leads-gets (λ d. d.file) desk refl)
        λ file d1 same.
          Leads-bind {P = λ entries d. desk.file ≡ state entries} (lift (read_state file)) _ d1
            (Leads-lift (read_state file) d1 λ entries e. sym same ∙ read_back file entries e)
            λ entries d2 found.
              let foreign = is_other_session arguments.session_id (lookup "session_id" entries) in
              Leads-bind {P = λ _ _. Unit} (raise_if foreign other_session) _ d2
                (Leads-raise_if foreign other_session d2 λ _. tt)
                λ _ d3 _.
                  Leads-bind {P = λ _ _. Unit} (lift (pid_of (lookup "pid" entries))) _ d3
                    (Leads-lift (pid_of (lookup "pid" entries)) d3 λ _ _. tt)
                    λ pid d4 _.
                      let gone = not (pid_alive (scene.probe pid)) in
                      Leads-bind {P = λ _ _. Unit} (raise_if gone recorded_process_gone) _ d4
                        (Leads-raise_if gone recorded_process_gone d4 λ _. tt)
                        λ _ d5 _. after_checks entries pid d5 found

lookup-merge :
    (k : String) (base more : Dict Entry) (v : Entry)
    → lookup k more ≡ some v
    → lookup k (merge base more) ≡ some v
unfolding merge lookup
lookup-merge k base [] v e = absurd (cc)
lookup-merge k base ((j, w) ∷ more) v e =
    ground (arith, lookup-put j k w (merge base more), lookup-merge k base more v)

-- The termination that a stop writes.
abbrev pub termination_of : StopArguments → StopScene → Termination
termination_of arguments scene = record {
  clean_guest_shutdown = false;
  guest_filesystems_synced = arguments.guest_synced;
  kind = if arguments.guest_synced then "guest-synced" else "failed-boot";
  stopped_at = scene.stopped_at;
}

stopped-termination :
    (arguments : StopArguments) (scene : StopScene) (entries : Dict Entry)
    → lookup "termination" (stopped_state arguments scene entries)
      ≡ some (termination_entry (termination_of arguments scene))
stopped-termination arguments scene entries = rw lookup-put refl

exits :
    (runtime : Dict Entry) (pid : ℤ) (code : Option ℤ) (t : Desk) (entries : Dict Entry)
    → t.file ≡ state entries
    → record_exit runtime pid code t ≡ (
      ok tt,
      write_state
          (put "pid" (number_entry pid) (put "exit_code" (exit_entry code) (merge runtime entries)))
          t,
    )
unfolding record_exit ◌>>=◌ gets lift modify
exits runtime pid code t entries e = rw e refl

-- What the end of a start writes over a state that names a termination.
exit-termination :
    (runtime entries : Dict Entry) (pid : ℤ) (code : Option ℤ) (v : Entry)
    → lookup "termination" entries ≡ some v
    → lookup "termination"
        (put "pid" (number_entry pid) (put "exit_code" (exit_entry code) (merge runtime entries)))
      ≡ some v
exit-termination runtime entries pid code v e =
    rw (lookup-put, lookup-put) (lookup-merge "termination" runtime entries v e)

-- After a stop of a system that returned, the end of the start that ran the emulator returns too and
-- writes a state whose termination is the one of the stop: no clean shutdown, a synced guest exactly
-- if that alone was attested, and the kind that goes with it. Between the two the file is not
-- written by others.
pub stop_then_exit :
    (arguments : StopArguments) (scene : StopScene) (desk t : Desk) (status : ℕ)
    (runtime : Dict Entry) (pid : ℤ) (code : Option ℤ)
    → system_stop arguments scene desk ≡ (ok status, t)
    → (same_flag arguments.guest_synced arguments.failed_boot ≡ false)
      × (entries : Dict Entry) × (record_exit runtime pid code t ≡ (ok tt, write_state entries t))
      × (lookup "termination" entries ≡ some (termination_entry (termination_of arguments scene)))
stop_then_exit arguments scene desk t status runtime pid code returned =
    let stopped : IsStopped arguments scene desk t =
      Leads-result (system_stop arguments scene) desk t status
        (system_stop-IsStopped arguments scene desk) returned in
    let now = stopped_state arguments scene stopped.entries in
    let written =
      put "pid" (number_entry pid) (put "exit_code" (exit_entry code) (merge runtime now)) in
    (
      stopped.attested,
      written,
      exits runtime pid code t now stopped.written,
      exit-termination runtime now pid code _ (stopped-termination arguments scene stopped.entries),
    )
