-- ===== src/Import/Duplicates.antt =====
-- The backup counts as another recipe.
use pilatus.Base.{
  ◌≡◌, sym, ap, ◌∙◌, ◌≢◌, inl, inr, some, List, [], ◌∷◌, ◌++◌, map, arith, ◌==◌, nat_eq, list_eq,
  Bool-cases, Option-cases, eq_of_test, ne_of_test,
}
use pilatus.Base.Result.{ok}
use pilatus.Name.{RecipeId}
use pilatus.HashMap
use pilatus.HashMap.{HashMap}
use pilatus.OrdHashMap
use pilatus.OrdHashMap.{OrdHashMap}
use pilatus.Recipe.{DeviceId, DeviceConfig, Recipe, Recipes, active_without_id}
use pilatus.Import.Defs.{owned, owners, check_owners, error_for_duplicate_device}

abbrev pub Has : DeviceId → List (DeviceId × RecipeId) → Type 0
Has d l = (r : RecipeId) × (HashMap.get d l ≡ some r)

Has-append_left : (d : DeviceId) (l m : List (DeviceId × RecipeId)) → Has d l → Has d (l ++ m)
unfolding HashMap.get
Has-append_left d [] m (r, h) = absurd (cc h)
Has-append_left d ((k, x) ∷ l) m (r, h) = elim (Bool-cases (k == d)) [
  | inl t ↦ (x, ground (arith, t))
  | inr t ↦
      let (r', e) = Has-append_left d l m (r, ground (arith, h, t)) in (r', ground (arith, t, e))
]

Has-append_right : (d : DeviceId) (l m : List (DeviceId × RecipeId)) → Has d m → Has d (l ++ m)
unfolding HashMap.get
Has-append_right d [] m h = h
Has-append_right d ((k, x) ∷ l) m h = elim (Bool-cases (k == d)) [
  | inl t ↦ (x, ground (arith, t))
  | inr t ↦ let (r', e) = Has-append_right d l m h in (r', ground (arith, t, e))
]

known_fails :
    (d : DeviceId) (known l : List (DeviceId × RecipeId))
    → Has d known
    → Has d l
    → check_owners known l ≢ ok tt
unfolding check_owners HashMap.get
known_fails d known [] (y, p) (z, h) e = cc h
known_fails d known ((k, x) ∷ l) (y, p) (z, h) e = elim (Option-cases (HashMap.get k known)) [
  | inr (o, old) ↦ ground (arith, old, e)
  | inl new ↦ elim (Bool-cases (k == d)) [
    | inl t ↦
        let same = eq_of_test k d t in
        let at = ap (λ j. HashMap.get j known) same in cc (at, new, p)
    | inr t ↦
        known_fails d (HashMap.insert k x known) l
          (y, HashMap.get-insert_ne k d x known (ne_of_test k d t) ∙ p) (z, ground (arith, h, t))
          (ground (arith, new, e))
  ]
]

both_fail :
    (d : DeviceId) (known l m : List (DeviceId × RecipeId))
    → Has d l
    → Has d m
    → check_owners known (l ++ m) ≢ ok tt
unfolding check_owners HashMap.get
both_fail d known [] m (z, h) n e = cc h
both_fail d known ((k, x) ∷ l) m (z, h) n e = elim (Option-cases (HashMap.get k known)) [
  | inr (o, old) ↦ ground (arith, old, e)
  | inl new ↦
      let later : check_owners (HashMap.insert k x known) (l ++ m) ≡ ok tt =
        ground (arith, new, e) in
      elim (Bool-cases (k == d)) [
        | inl t ↦
            let self =
              ap (λ j. HashMap.get j (HashMap.insert k x known)) (sym (eq_of_test k d t)) in
            known_fails d (HashMap.insert k x known) (l ++ m)
              (x, self ∙ HashMap.get-insert_self k x known) (Has-append_right d l m n) later
        | inr t ↦ both_fail d (HashMap.insert k x known) l m (z, ground (arith, h, t)) n later
      ]
]

module _ {N : Type 0} where
  owned-Has :
      (d : DeviceId) (rid : RecipeId) (devices : OrdHashMap DeviceId (DeviceConfig N))
      (c : DeviceConfig N)
      → OrdHashMap.get d devices ≡ some c
      → Has d (map (λ x. (x.0, rid)) (OrdHashMap.iter_unordered devices))
  unfolding HashMap.get OrdHashMap.get OrdHashMap.iter_unordered
  owned-Has d rid [] c h = absurd (cc h)
  owned-Has d rid ((k, (i, x)) ∷ devices) c h = elim (Bool-cases (k == d)) [
    | inl t ↦ (rid, ground (arith, t))
    | inr t ↦
        let (r, e) = owned-Has d rid devices c (ground (arith, h, t)) in (r, ground (arith, t, e))
  ]

  owners-Has :
      (d : DeviceId) (id : RecipeId) (all : OrdHashMap RecipeId (Recipe N)) (r : Recipe N)
      (c : DeviceConfig N)
      → OrdHashMap.get id all ≡ some r
      → OrdHashMap.get d r.devices ≡ some c
      → Has d (owners (OrdHashMap.iter_unordered all))
  unfolding HashMap.get OrdHashMap.get OrdHashMap.iter_unordered
  owners-Has d id [] r c h k = absurd (cc h)
  owners-Has d id ((j, (i, x)) ∷ all) r c h k = elim (Bool-cases (j == id)) [
    | inl t ↦
        let same : x ≡ r = ground (arith, h, t) in
        Has-append_left d (owned j x) _
          (owned-Has d j x.devices c (ap (λ v. OrdHashMap.get d v.devices) same ∙ k))
    | inr t ↦ Has-append_right d (owned j x) _ (owners-Has d id all r c (ground (arith, h, t)) k)
  ]

  -- If a device is both in the active recipe and in the backup of the active recipe,
  -- `error_for_duplicate_device` does not succeed.
  pub error_for_duplicate_device-active :
      (rs : Recipes N) (running : Recipe N) (d : DeviceId) (c c' : DeviceConfig N)
      → active_without_id rs ≡ some running
      → OrdHashMap.get d running.devices ≡ some c
      → OrdHashMap.get d rs.active_backup.devices ≡ some c'
      → error_for_duplicate_device rs ≢ ok tt
  unfolding error_for_duplicate_device active_without_id
  error_for_duplicate_device-active rs running d c c' h p q =
      both_fail d [] (owned rs.active_id rs.active_backup)
        (owners (OrdHashMap.iter_unordered rs.all))
        (owned-Has d rs.active_id rs.active_backup.devices c' q)
        (owners-Has d rs.active_id rs.all running c h p)
