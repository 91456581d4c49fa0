-- ===== src/Validation/Accepted.antt =====
-- scripts/validate_manifests.py: what the first loop of `main` says of the manifests it accepts.
use unixtime_machine.Prelude.{
  ◌≡◌, refl, List, [], ◌∷◌, ◌++◌, some, String, str_eq, eq_iff, Bool-cases, arith, ◌⊎◌, inl, inr,
}
use unixtime_machine.Prelude.Dict.{lookup, lookup-put}
use unixtime_machine.Outcome.{
  Outcome, ok, raised, ◌>>=◌, ◌>>◌, Yields, Yields-ok, Yields-bind, Yields-by, Yields-result,
}
use unixtime_machine.Validation.Disks.{RawDisk, nothing_seen}
use unixtime_machine.Validation.Disks.Distinct.{AreDistinct, check_disks-Distinct}
use unixtime_machine.Validation.Items.{Listed}
use unixtime_machine.Validation.{
  Section, RawManifest, disks_in, check_head, check_media, check_prepared, check_manifest,
  Collected, after_manifest, collect_manifests,
}

-- A manifest that is accepted, with what its disks have in common.
pub record IsAccepted (raw : RawManifest) (sid track : String) : Type 0 where
  pub checked : check_manifest raw ≡ ok (sid, track)
  pub disks : List RawDisk
  pub visited : disks_in raw.prepared ≡ ok disks
  pub distinct : AreDistinct nothing_seen disks

abbrev pub AllAccepted : List RawManifest → Type 0
AllAccepted [] = Unit
AllAccepted (raw ∷ raws) =
    ((sid : String) × (track : String) × IsAccepted raw sid track) × AllAccepted raws

-- Some manifest is accepted with this identifier and track.
abbrev pub Origin : String → String → List RawManifest → Type 0
Origin sid track [] = ⊥
Origin sid track (raw ∷ raws) = (check_manifest raw ≡ ok (sid, track)) ⊎ Origin sid track raws

pub not_nil : {A : Type 0} {B : Type 0} (xs : List A) (a : A) → xs ++ a ∷ [] ≡ [] → B
not_nil [] a e = absurd (cc)
not_nil (x ∷ xs) a e = absurd (cc)

manifest_clean :
    (r : Outcome (String × String)) (c : Collected)
    → (after_manifest r c).errors ≡ []
    → (c.errors ≡ []) × (p : String × String) × (r ≡ ok p)
manifest_clean (ok (sid, track)) c e = (e, (sid, track), refl)
manifest_clean (raised x) c e = not_nil c.errors x e

third_ok :
    {A P : Type 0} (a : Outcome A) (b c : Outcome (Unit {0})) (f : A → P) (p : P)
    → (a >>= λ x. b >> (c >> ok (f x))) ≡ ok p
    → c ≡ ok tt
third_ok (ok x) (ok _) (ok tt) f p e = refl
third_ok (ok x) (ok _) (raised y) f p e = absurd (cc)
third_ok (ok x) (raised y) c f p e = absurd (cc)
third_ok (raised y) b c f p e = absurd (cc)

prepared_checked :
    (raw : RawManifest) (p : String × String)
    → check_manifest raw ≡ ok p
    → check_prepared raw.prepared ≡ ok tt
unfolding check_manifest
prepared_checked raw p e =
    third_ok (check_head raw) (check_media raw.media) (check_prepared raw.prepared) _ p e

check_prepared-Distinct :
    (prepared : Section (Listed RawDisk))
    → Yields
        (λ _.
          (disks : List RawDisk) × (disks_in prepared ≡ ok disks) × AreDistinct nothing_seen disks)
        (check_prepared prepared)
unfolding check_prepared
check_prepared-Distinct prepared =
    Yields-bind _ _ _ _ (Yields-by (disks_in prepared) λ disks e. e) λ disks visited.
      Yields-bind _ _ _ _ (check_disks-Distinct disks nothing_seen)
        λ seen distinct. Yields-ok _ tt (disks, visited, distinct)

accepted :
    (raw : RawManifest) (p : String × String) → check_manifest raw ≡ ok p → IsAccepted raw p.0 p.1
accepted raw p e =
    let checked = prepared_checked raw p e in
    let (disks, visited, distinct) =
      Yields-result (check_prepared raw.prepared) tt (check_prepared-Distinct raw.prepared)
        checked in
    record { checked = e; disks = disks; visited = visited; distinct = distinct }

pub collect-AllAccepted :
    (raws : List RawManifest) (c : Collected)
    → (collect_manifests raws c).errors ≡ []
    → (c.errors ≡ []) × AllAccepted raws
unfolding collect_manifests
collect-AllAccepted [] c e = (e, tt)
collect-AllAccepted (raw ∷ raws) c e =
    let (clean, rest) = collect-AllAccepted raws (after_manifest (check_manifest raw) c) e in
    let (before, p, is_ok) = manifest_clean (check_manifest raw) c clean in
    (before, ((p.0, p.1, accepted raw p is_ok), rest))

abbrev SameResult : Outcome (String × String) → Outcome (String × String) → Type 0
SameResult a b = a ≡ b

same_pair :
    (s sid t track : String)
    → s ≡ sid
    → some t ≡ some track
    → SameResult (ok (s, t)) (ok (sid, track))
same_pair s sid t track e f = cc

manifest_origin :
    (r : Outcome (String × String)) (c : Collected) (sid track : String)
    → lookup sid (after_manifest r c).manifests ≡ some track
    → (r ≡ ok (sid, track)) ⊎ (lookup sid c.manifests ≡ some track)
manifest_origin (ok (s, t)) c sid track e =
    let known = lookup-put s sid t c.manifests in
    elim (Bool-cases (str_eq s sid)) [
      | inl same ↦
          inl (same_pair s sid t track (ground (arith, eq_iff s sid)) (ground (arith, known)))
      | inr differ ↦ inr (ground (arith, known))
    ]
manifest_origin (raised x) c sid track e = inr e

pub collect-Origin :
    (raws : List RawManifest) (c : Collected) (sid track : String)
    → lookup sid (collect_manifests raws c).manifests ≡ some track
    → (lookup sid c.manifests ≡ some track) ⊎ Origin sid track raws
unfolding collect_manifests
collect-Origin [] c sid track e = inl e
collect-Origin (raw ∷ raws) c sid track e =
    elim (collect-Origin raws (after_manifest (check_manifest raw) c) sid track e) [
      | inr later ↦ inr (inr later)
      | inl now ↦ elim (manifest_origin (check_manifest raw) c sid track now) [
        | inl here ↦ inr (inl here)
        | inr before ↦ inl before
      ]
    ]
