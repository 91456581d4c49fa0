-- ===== src/Validation/Status.antt =====
-- scripts/validate_manifests.py: what an exit status of 0 says of the manifests and inventories.
use unixtime_machine.Prelude.{
  ◌≡◌, refl, ap, Bool, true, false, not, List, [], ◌∷◌, Option, none, some, String, eq_iff, arith,
  ◌⊎◌, inl, inr,
}
use unixtime_machine.Prelude.Dict.{Dict, lookup}
use unixtime_machine.Errors.{Error}
use unixtime_machine.Outcome.{Outcome, ok, raised, ◌>>=◌, ◌>>◌, refuse_if, require}
use unixtime_machine.Validation.Values.{Scalar, string, null, integer, boolean, empty, filled}
use unixtime_machine.Validation.Accepted.{
  AllAccepted, Origin, not_nil, collect-AllAccepted, collect-Origin,
}
use unixtime_machine.Validation.Items.{is_text}
use unixtime_machine.Validation.{
  RawManifest, Inventory, unloadable, inventory, check_systems, check_inventory, Collected,
  collect_manifests, after_inventory, collect_inventories, exit_status, main,
}

-- Every system of an inventory is that of a manifest with the inventory's track.
abbrev pub AllNamed : List RawManifest → Scalar → List Scalar → Type 0
AllNamed raws track [] = Unit
AllNamed raws track (system ∷ systems) =
    ((sid : String) × (t : String) × (system ≡ string sid) × (track ≡ string t) × Origin sid t raws)
    × AllNamed raws track systems

abbrev pub IsServed : List RawManifest → Inventory → Type 0
IsServed raws (unloadable e) = ⊥
IsServed raws (inventory none systems) = ⊥
IsServed raws (inventory (some track) systems) = AllNamed raws track systems

abbrev pub AllServed : List RawManifest → List Inventory → Type 0
AllServed raws [] = Unit
AllServed raws (i ∷ rest) = IsServed raws i × AllServed raws rest

text_is : (t : String) (track : Scalar) → is_text t track ≡ true → track ≡ string t
text_is t (string s) e = ap string (ground (arith, eq_iff s t))
text_is t null e = absurd (cc)
text_is t (integer _) e = absurd (cc)
text_is t (boolean _) e = absurd (cc)
text_is t empty e = absurd (cc)
text_is t filled e = absurd (cc)

-- A guard that is passed.
passed :
    (b : Bool) (x : Error) (k : Outcome (Unit {0}))
    → (refuse_if (not b) x >> k) ≡ ok tt
    → (b ≡ true) × (k ≡ ok tt)
passed true x k e = (refl, e)
passed false x k e = absurd (cc)

-- The system is known, and the track is right.
known_system :
    (raws : List RawManifest) (sid : String) (track : Scalar) (o : Option String) (x y : Error)
    (k : Outcome (Unit {0}))
    → ((t : String) → o ≡ some t → Origin sid t raws)
    → (require x o >>= λ t. refuse_if (not (is_text t track)) y >> k) ≡ ok tt
    → ((t : String) × (track ≡ string t) × Origin sid t raws) × (k ≡ ok tt)
known_system raws sid track none x y k origin e = absurd (cc)
known_system raws sid track (some t) x y k origin e =
    let (right, rest) = passed (is_text t track) y k e in
    ((t, text_is t track right, origin t refl), rest)

known_systems :
    (raws : List RawManifest) (manifests : Dict String) (track : Scalar) (systems : List Scalar)
    → ((sid t : String) → lookup sid manifests ≡ some t → Origin sid t raws)
    → check_systems manifests track systems ≡ ok tt
    → AllNamed raws track systems
unfolding check_systems
known_systems raws manifests track [] origin e = tt
known_systems raws manifests track (string sid ∷ systems) origin e =
    let ((t, right, source), rest) =
      known_system raws sid track (lookup sid manifests) _ _ (check_systems manifests track systems)
        (origin sid) e in
    ((sid, t, refl, right, source), known_systems raws manifests track systems origin rest)
known_systems raws manifests track (null ∷ systems) origin e = absurd (cc)
known_systems raws manifests track (integer _ ∷ systems) origin e = absurd (cc)
known_systems raws manifests track (boolean _ ∷ systems) origin e = absurd (cc)
known_systems raws manifests track (empty ∷ systems) origin e = absurd (cc)
known_systems raws manifests track (filled ∷ systems) origin e = absurd (cc)

served :
    (raws : List RawManifest) (manifests : Dict String) (i : Inventory)
    → ((sid t : String) → lookup sid manifests ≡ some t → Origin sid t raws)
    → check_inventory manifests i ≡ ok tt
    → IsServed raws i
unfolding check_inventory
served raws manifests (unloadable x) origin e = absurd (cc)
served raws manifests (inventory none systems) origin e = absurd (cc)
served raws manifests (inventory (some track) systems) origin e =
    known_systems raws manifests track systems origin e

inventory_clean :
    (r : Outcome (Unit {0})) (errors : List Error)
    → after_inventory r errors ≡ []
    → (errors ≡ []) × (r ≡ ok tt)
inventory_clean (ok tt) errors e = (e, refl)
inventory_clean (raised x) errors e = not_nil errors x e

collect-AllServed :
    (raws : List RawManifest) (manifests : Dict String) (inventories : List Inventory)
    (errors : List Error)
    → ((sid t : String) → lookup sid manifests ≡ some t → Origin sid t raws)
    → collect_inventories manifests inventories errors ≡ []
    → (errors ≡ []) × AllServed raws inventories
unfolding collect_inventories
collect-AllServed raws manifests [] errors origin e = (e, tt)
collect-AllServed raws manifests (i ∷ rest) errors origin e =
    let (clean, others) =
      collect-AllServed raws manifests rest (after_inventory (check_inventory manifests i) errors)
        origin e in
    let (before, is_ok) = inventory_clean (check_inventory manifests i) errors clean in
    (before, (served raws manifests i origin is_ok, others))

no_errors : (errors : List Error) → exit_status errors ≡ 0 → errors ≡ []
no_errors [] e = refl
no_errors (_ ∷ _) e = absurd (omega (arith, e))

fresh_only :
    (sid t : String) (raws : List RawManifest)
    → (lookup {V = String} sid [] ≡ some t) ⊎ Origin sid t raws
    → Origin sid t raws
unfolding lookup
fresh_only sid t raws (inl e) = absurd (cc)
fresh_only sid t raws (inr o) = o

-- If the validation ends with status 0, every manifest is accepted, the identifiers, units, tokens,
-- golden and session file names of its disks are each without repetition and its tokens have the
-- form @NAME@, and every system of every inventory is that of an accepted manifest whose track is
-- that of the inventory.
pub main_zero :
    (raws : List RawManifest) (inventories : List Inventory)
    → main raws inventories ≡ 0
    → AllAccepted raws × AllServed raws inventories
unfolding main
main_zero raws inventories e =
    let start : Collected = record { errors = []; manifests = [] } in
    let c = collect_manifests raws start in
    let clean = no_errors (collect_inventories c.manifests inventories c.errors) e in
    let (before, all_served) =
      collect-AllServed raws c.manifests inventories c.errors
        (λ sid t found. fresh_only sid t raws (collect-Origin raws start sid t found)) clean in
    ((collect-AllAccepted raws start before).1, all_served)
