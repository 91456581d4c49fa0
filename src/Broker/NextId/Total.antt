-- ===== src/Broker/NextId/Total.antt =====
-- The loop of `Broker._next_id` ends: the entries that can stand in its way run out.
use unixtime_machine.Prelude.{
  ℕ, zero, suc, ◌≡◌, ◌≢◌, refl, sym, ◌≤◌, ◌<◌, ◌+◌, ◌||◌, true, false, Bool-cases, inl, inr, String,
  [], ◌∷◌, Option, none, some, length, ==_iff, eq_iff, or_else, arith, ◌==◌,
}
use unixtime_machine.Prelude.Dict.{Dict, lookup, without, contains, lookup-without}
use unixtime_machine.Exec.{ok, or_raise, gets, modify, pure, ◌>>=◌}
use unixtime_machine.Host.{Host, StateFile, Workspace}
use unixtime_machine.Broker.Base.{workspace_path}
use unixtime_machine.Broker.NextId.{candidate, is_taken, find_free, next_id}
use unixtime_machine.Broker.NextId.Numerals.{candidate_inj, workspace_path_inj}

module _ {V : Type 0} where
  length-without_le : (k : String) (d : Dict V) → length (without k d) ≤ length d
  unfolding without
  length-without_le k [] = omega arith
  length-without_le k ((j, v) ∷ d) = ground (arith, length-without_le k d)

  -- Taking out a key that is there leaves fewer entries.
  length-without : (k : String) (d : Dict V) → contains k d ≡ true → length (without k d) < length d
  unfolding without contains lookup
  length-without k [] h = cc
  length-without k ((j, v) ∷ d) h = ground (arith, length-without k d, length-without_le k d)

  contains-without : (k j : String) (d : Dict V) → j ≢ k → contains j (without k d) ≡ contains j d
  unfolding contains
  contains-without k j d ne =
      rw lookup-without (ground (arith, eq_iff k j, λ (e : k ≡ j). ne (sym e)))

module _ (system_id : String) where
  abbrev id_of : ℕ → String
  id_of n = candidate system_id n

  abbrev path_of : ℕ → String
  path_of n = workspace_path system_id (candidate system_id n)

  ids_differ : (m n : ℕ) → n < m → id_of m ≢ id_of n
  ids_differ m n lt e = absurd (omega (arith, candidate_inj system_id m n e))

  paths_differ : (m n : ℕ) → n < m → path_of m ≢ path_of n
  paths_differ m n lt e = ids_differ m n lt (workspace_path_inj system_id (id_of m) (id_of n) e)

  abbrev Taken : Dict StateFile → Dict Workspace → ℕ → ℕ → Type 0
  Taken files workspaces n count =
      (i : ℕ) → n ≤ i → i < n + count → is_taken system_id i files workspaces ≡ true

  shift :
      (files : Dict StateFile) (workspaces : Dict Workspace) (n count : ℕ)
      → Taken files workspaces n (suc count)
      → Taken files workspaces (n + 1) count
  shift files workspaces n count all i a b = all i (omega arith) (omega arith)

  -- A run of identifiers that are all taken is no longer than the list of entries.
  Taken-fits :
      (count n : ℕ) (files : Dict StateFile) (workspaces : Dict Workspace)
      → Taken files workspaces n count
      → count ≤ length files + length workspaces
  unfolding is_taken
  Taken-fits zero n files workspaces all = omega arith
  Taken-fits (suc count) n files workspaces all = elim (Bool-cases (contains (id_of n) files)) [
    | inl e ↦ omega (
      arith,
      length-without (id_of n) files e,
      Taken-fits count (n + 1) (without (id_of n) files) workspaces (λ i a b.
          rw (contains-without (id_of n) (id_of i) files (ids_differ i n (omega arith)))
            (all i (omega arith) (omega arith))),
    )
    | inr e ↦ omega (
      arith,
      length-without (path_of n) workspaces (rw e at (all n (omega arith) (omega arith))),
      Taken-fits count (n + 1) files (without (path_of n) workspaces) (λ i a b.
          rw (contains-without (path_of n) (path_of i) workspaces (paths_differ i n (omega arith)))
            (all i (omega arith) (omega arith))),
    )
  ]

  -- `m` is the first number from `n` on whose identifier and workspace are both unused.
  pub record IsFirstFree (files : Dict StateFile) (workspaces : Dict Workspace) (n m : ℕ)
      : Type 0 where
    pub from : n ≤ m
    pub free_id : contains (candidate system_id m) files ≡ false
    pub free_workspace :
        contains (workspace_path system_id (candidate system_id m)) workspaces ≡ false
    pub first :
        (i : ℕ)
        → n ≤ i
        → i < m
        → (contains (candidate system_id i) files
            || contains (workspace_path system_id (candidate system_id i)) workspaces)
          ≡ true

  abbrev Searched : ℕ → ℕ → Dict StateFile → Dict Workspace → Option ℕ → Type 0
  Searched count n files workspaces none = Taken files workspaces n count
  Searched count n files workspaces (some m) = IsFirstFree files workspaces n m

  after_taken :
      (count n : ℕ) (files : Dict StateFile) (workspaces : Dict Workspace) (found : Option ℕ)
      → is_taken system_id n files workspaces ≡ true
      → Searched count (n + 1) files workspaces found
      → Searched (suc count) n files workspaces found
  after_taken count n files workspaces none e all = λ i a b. elim (Bool-cases (i == n)) [
    | inl same ↦ rw ((==_iff i n).0 same) e
    | inr other ↦ all i (ground arith) (omega arith)
  ]
  after_taken count n files workspaces (some m) e s = record {
    from = omega (arith, s.from);
    free_id = s.free_id;
    free_workspace = s.free_workspace;
    first = λ i a b. elim (Bool-cases (i == n)) [
      | inl same ↦ rw ((==_iff i n).0 same) (unfold is_taken in e)
      | inr other ↦ s.first i (ground arith) b
    ];
  }

  found_here :
      (n : ℕ) (files : Dict StateFile) (workspaces : Dict Workspace)
      → is_taken system_id n files workspaces ≡ false
      → IsFirstFree files workspaces n n
  unfolding is_taken
  found_here n files workspaces e = record {
    from = omega arith;
    free_id = ground arith;
    free_workspace = ground arith;
    first = λ i a b. absurd (omega arith);
  }

  find_free-Searched :
      (count n : ℕ) (files : Dict StateFile) (workspaces : Dict Workspace)
      → Searched count n files workspaces (find_free count system_id n files workspaces)
  unfolding find_free
  find_free-Searched zero n files workspaces = λ i a b. absurd (omega arith)
  find_free-Searched (suc count) n files workspaces =
      elim (Bool-cases (is_taken system_id n files workspaces)) [
        | inl e ↦ rw e (
            after_taken count n files workspaces _ e
              (find_free-Searched count (n + 1) files workspaces))
        | inr e ↦ rw e (found_here n files workspaces e)
      ]

  find_free_total :
      (files : Dict StateFile) (workspaces : Dict Workspace) (n : ℕ)
      → (m : ℕ) × (find_free (suc (length files + length workspaces)) system_id n files workspaces
          ≡ some m)
        × IsFirstFree files workspaces n m
  find_free_total files workspaces n =
      let count = suc (length files + length workspaces) in
      outcome (find_free count system_id n files workspaces) refl
        (find_free-Searched count n files workspaces)
    where
      outcome :
          (found : Option ℕ)
          → find_free (suc (length files + length workspaces)) system_id n files workspaces ≡ found
          → Searched (suc (length files + length workspaces)) n files workspaces found
          → (m : ℕ) × (find_free
                (suc (length files + length workspaces))
                system_id
                n
                files
                workspaces
              ≡ some m)
            × IsFirstFree files workspaces n m
      outcome none e s =
          absurd (
            omega (arith, Taken-fits (suc (length files + length workspaces)) n files workspaces s))
      outcome (some m) e s = (m, e, s)

  -- The loop of `_next_id` always ends: it returns the first identifier from the counter on of which
  -- neither the state file nor the workspace exists, and sets the counter behind it; the rest of the
  -- host is as before.
  pub next_id_total :
      (h : Host)
      → (m : ℕ) × (next_id system_id h
          ≡ (ok (candidate system_id m), record h { counter = some (m + 1) }))
        × IsFirstFree h.files h.workspaces (or_else h.counter 1) m
  unfolding next_id gets or_raise modify pure ◌>>=◌
  next_id_total h =
      let (m, e, s) = find_free_total h.files h.workspaces (or_else h.counter 1) in (m, rw e, s)
