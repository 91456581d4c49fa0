-- ===== src/Validation/Disks/Distinct.antt =====
-- scripts/validate_manifests.py: what accepted disks have in common.
use unixtime_machine.Prelude.{
  ◌≡◌, refl, sym, subst, ap, true, false, List, [], ◌∷◌, Option, none, some, String, arith, suc,
  length,
}
use unixtime_machine.Outcome.{
  ok, Yields, Yields-ok, Yields-bind, Yields-map, Yields-require, Yields-by,
}
use unixtime_machine.Ids.{codes}
use unixtime_machine.Validation.Values.{Scalar, got, text_of, is_token}
use unixtime_machine.Validation.Disks.{RawDisk, Seen, member, check_texts, check_disk, check_disks}

-- The texts of one accepted entry.
pub record Accepted (disk : RawDisk) (seen next : Seen) : Type 0 where
  pub id : String
  pub unit : String
  pub golden : String
  pub session : String
  pub token : String
  pub id_is : text_of (got disk.id) ≡ some id
  pub unit_is : text_of (got disk.unit) ≡ some unit
  pub golden_is : text_of (got disk.golden_filename) ≡ some golden
  pub session_is : text_of (got disk.session_filename) ≡ some session
  pub token_is : text_of (got disk.runtime_token) ≡ some token
  pub new_id : member id seen.ids ≡ false
  pub new_unit : member unit seen.units ≡ false
  pub new_token : member token seen.tokens ≡ false
  pub new_golden : member golden seen.files ≡ false
  pub new_session : member session seen.files ≡ false
  pub is_plain : is_token (codes token) ≡ true
  pub next_is : next ≡ record {
    ids = id ∷ seen.ids;
    units = unit ∷ seen.units;
    files = golden ∷ session ∷ seen.files;
    tokens = token ∷ seen.tokens;
  }

module _ (disk : RawDisk) (seen next : Seen) (id unit golden session token : String)
    (e : check_texts disk seen id unit golden session token ≡ ok next)
    (id_is : text_of (got disk.id) ≡ some id) (unit_is : text_of (got disk.unit) ≡ some unit)
    (golden_is : text_of (got disk.golden_filename) ≡ some golden)
    (session_is : text_of (got disk.session_filename) ≡ some session)
    (token_is : text_of (got disk.runtime_token) ≡ some token) where
  check_texts-Accepted : Accepted disk seen next
  check_texts-Accepted = record {
    id = id;
    unit = unit;
    golden = golden;
    session = session;
    token = token;
    id_is = id_is;
    unit_is = unit_is;
    golden_is = golden_is;
    session_is = session_is;
    token_is = token_is;
    new_id = ground arith;
    new_unit = ground arith;
    new_token = ground arith;
    new_golden = ground arith;
    new_session = ground arith;
    is_plain = ground arith;
    next_is = ground arith;
  }

module _ (disk : RawDisk) (seen : Seen) where
  check_disk-Accepted : Yields (Accepted disk seen) (check_disk disk seen)
  unfolding check_disk
  check_disk-Accepted = Yields-bind _ _ _ _ (Yields-require _ (text_of (got disk.id))) λ id id_is.
      Yields-bind _ _ _ _ (Yields-require _ (text_of (got disk.unit))) λ unit unit_is.
        Yields-bind _ _ _ _ (Yields-require _ (text_of (got disk.device))) λ device device_is.
          Yields-bind _ _ _ _ (Yields-require _ (text_of (got disk.golden_filename)))
            λ golden golden_is.
              Yields-bind _ _ _ _ (Yields-require _ (text_of (got disk.session_filename)))
                λ session session_is.
                  Yields-bind _ _ _ _ (Yields-require _ (text_of (got disk.runtime_token)))
                    λ token token_is.
                      Yields-by (check_texts disk seen id unit golden session token) λ next e.
                        check_texts-Accepted disk seen next id unit golden session token e id_is
                          unit_is golden_is session_is token_is

-- The texts under one key.
abbrev pub texts : (RawDisk → Option Scalar) → List RawDisk → List String
texts key [] = []
texts key (disk ∷ disks) = elim (text_of (got (key disk))) [
  | none ↦ texts key disks
  | some s ↦ s ∷ texts key disks
]

texts_first :
    (key : RawDisk → Option Scalar) (disk : RawDisk) (disks : List RawDisk) (s : String)
    → text_of (got (key disk)) ≡ some s
    → s ∷ texts key disks ≡ texts key (disk ∷ disks)
texts_first key disk disks s e = ap (λ o. listed o) (sym e)
  where
    listed : Option String → List String
    listed none = texts key disks
    listed (some x) = x ∷ texts key disks

-- No text stands twice, or among the seen ones.
abbrev pub IsFresh : List String → List String → Type 0
IsFresh seen [] = Unit
IsFresh seen (x ∷ xs) = (member x seen ≡ false) × IsFresh (x ∷ seen) xs

abbrev pub AllTokens : List String → Type 0
AllTokens [] = Unit
AllTokens (x ∷ xs) = (is_token (codes x) ≡ true) × AllTokens xs

IsFresh-weaken :
    (a b xs : List String)
    → ((x : String) → member x a ≡ false → member x b ≡ false)
    → IsFresh a xs
    → IsFresh b xs
unfolding member
IsFresh-weaken a b [] sub fresh = tt
IsFresh-weaken a b (x ∷ xs) sub fresh =
    (sub x fresh.0, IsFresh-weaken (x ∷ a) (x ∷ b) xs (λ y e. ground (arith, sub y)) fresh.1)

-- What the disks of one manifest have in common.
pub record AreDistinct (seen : Seen) (disks : List RawDisk) : Type 0 where
  pub ids : IsFresh seen.ids (texts (λ d. d.id) disks)
  pub units : IsFresh seen.units (texts (λ d. d.unit) disks)
  pub tokens : IsFresh seen.tokens (texts (λ d. d.runtime_token) disks)
  pub goldens : IsFresh seen.files (texts (λ d. d.golden_filename) disks)
  pub sessions : IsFresh seen.files (texts (λ d. d.session_filename) disks)
  pub plain : AllTokens (texts (λ d. d.runtime_token) disks)
  pub all_named : length (texts (λ d. d.session_filename) disks) ≡ length disks

module _ (disk : RawDisk) (disks : List RawDisk) (seen next : Seen) (a : Accepted disk seen next)
    (rest : AreDistinct next disks) where
  with_first : AreDistinct seen (disk ∷ disks)
  unfolding member
  with_first =
      let later = subst (λ n. AreDistinct n disks) a.next_is rest in
      record {
        ids =
            subst (IsFresh seen.ids) (texts_first (λ d. d.id) disk disks _ a.id_is)
              (a.new_id, later.ids);
        units =
            subst (IsFresh seen.units) (texts_first (λ d. d.unit) disk disks _ a.unit_is)
              (a.new_unit, later.units);
        tokens =
            subst (IsFresh seen.tokens) (texts_first (λ d. d.runtime_token) disk disks _ a.token_is)
              (a.new_token, later.tokens);
        goldens =
            subst (IsFresh seen.files)
              (texts_first (λ d. d.golden_filename) disk disks _ a.golden_is)
              (
                a.new_golden,
                IsFresh-weaken _ (a.golden ∷ seen.files) _ (λ x e. ground arith) later.goldens,
              );
        sessions =
            subst (IsFresh seen.files)
              (texts_first (λ d. d.session_filename) disk disks _ a.session_is)
              (
                a.new_session,
                IsFresh-weaken _ (a.session ∷ seen.files) _ (λ x e. ground arith) later.sessions,
              );
        plain =
            subst (AllTokens) (texts_first (λ d. d.runtime_token) disk disks _ a.token_is)
              (a.is_plain, later.plain);
        all_named =
            subst ((λ xs. length xs ≡ suc (length disks)))
              (texts_first (λ d. d.session_filename) disk disks _ a.session_is)
              (omega (arith, later.all_named));
      }

pub check_disks-Distinct :
    (disks : List RawDisk) (seen : Seen)
    → Yields (λ _. AreDistinct seen disks) (check_disks disks seen)
unfolding check_disks
check_disks-Distinct [] seen = Yields-ok _ _ (record {
  ids = tt;
  units = tt;
  tokens = tt;
  goldens = tt;
  sessions = tt;
  plain = tt;
  all_named = refl;
})
check_disks-Distinct (disk ∷ disks) seen =
    Yields-bind _ _ _ _ (check_disk-Accepted disk seen) λ next a.
      Yields-map (check_disks disks next) (check_disks-Distinct disks next)
        λ last rest. with_first disk disks seen next a rest
