-- ===== src/Recipe/Collection.antt =====
-- recipes.rs: `Recipes`, all recipes with the one that is active and its last committed state. An
-- operation returns the new state beside its result; a `none` is a panic of an `expect` or `assert`.
use pilatus.Base.{
  ℕ, zero, suc, ◌+◌, Bool, true, false, not, ◌||◌, Option, none, some, List, [], ◌∷◌, map, length,
  if◌then◌else◌, PartialEq, ◌==◌, nat_beq, nat_eq, list_eq, pair_eq,
}
use pilatus.Base.Result.{Result, ok, err}
use pilatus.Name.{RecipeId, default_id, suggest_unique}
use pilatus.OrdHashMap
use pilatus.OrdHashMap.{OrdHashMap}
use pilatus.Variables.{Variables}
use pilatus.Recipe.Config.{DeviceId, DeviceConfig, config_eq}
use pilatus.Recipe.Defs.{Recipe, default_recipe, has_device, count_devices}

pub record Recipes (N : Type 0) : Type 0 where
  pub active_id : RecipeId
  pub active_backup : Recipe N
  pub all : OrdHashMap RecipeId (Recipe N)
  pub variables : Variables N

pub data SetActiveError : Type 0 where
  uncommitted_changes : SetActiveError
  unknown_recipe : RecipeId → SetActiveError

pub data RemoveRecipeError : Type 0 where
  is_active : RemoveRecipeError
  unknown_removed : RecipeId → RemoveRecipeError

-- The errors of a transaction that the modelled operations return.
pub data TransactionError : Type 0 where
  recipe_already_exists unknown_recipe_id : RecipeId → TransactionError
  unknown_device_error : DeviceId → TransactionError
  invalid_variable : RecipeId → TransactionError
  file_system_error unknown_file_path invalid_device_config other : TransactionError

-- The loop of `get_unique_id`, on fuel: a taken id is replaced by the next suggestion.
unfoldable pub first_free {ℓ} :
    {V : Type ℓ}
    → ℕ
    → OrdHashMap RecipeId V
    → (ℕ → Option RecipeId)
    → ℕ
    → RecipeId
    → Option RecipeId
first_free zero taken suggestion k id = none
first_free (suc fuel) taken suggestion k id = elim (OrdHashMap.contains_key id taken) [
  | false ↦ some id
  | true ↦ elim (suggestion k) [
    | none ↦ none
    | some next ↦ first_free fuel taken suggestion (k + 1) next
  ]
]

module _ {N : Type 0} where
  unfoldable pub new_with_recipe : Recipe N → Recipes N
  new_with_recipe r = record {
    active_id = default_id;
    active_backup = r;
    all = OrdHashMap.from ((default_id, r) ∷ []);
    variables = [];
  }

  -- `Recipes::default`, at the time `now`.
  unfoldable pub default_recipes : ℕ → Recipes N
  default_recipes now = record {
    active_id = default_id;
    active_backup = default_recipe now;
    all = OrdHashMap.from ((default_id, default_recipe now) ∷ []);
    variables = [];
  }

  unfoldable pub get_with_id : Recipes N → RecipeId → Option (Recipe N)
  get_with_id rs id = OrdHashMap.get id rs.all

  unfoldable pub has_recipe : Recipes N → RecipeId → Bool
  has_recipe rs id = OrdHashMap.contains_key id rs.all

  unfoldable pub active_without_id : Recipes N → Option (Recipe N)
  active_without_id rs = OrdHashMap.get rs.active_id rs.all

  -- A write through the reference of `get_with_id_mut`.
  unfoldable pub get_with_id_mut : Recipes N → RecipeId → (Recipe N → Recipe N) → Recipes N
  get_with_id_mut rs id f = record rs { all = OrdHashMap.get_mut id f rs.all }

  unfoldable pub has_device_on_running : Recipes N → DeviceId → Option Bool
  unfolding active_without_id has_device
  has_device_on_running rs id = elim (active_without_id rs) [
    | none ↦ none
    | some r ↦ some (has_device r id)
  ]

  unfoldable pub commit_active : Recipes N → Option (Recipes N)
  unfolding active_without_id
  commit_active rs = elim (active_without_id rs) [
    | none ↦ none
    | some r ↦ some (record rs { active_backup = r })
  ]

  -- The enough fuel for `first_free`: one more step than there are recipes, and the given id.
  unfoldable pub get_unique_id : Recipes N → RecipeId → Option RecipeId
  unfolding first_free
  get_unique_id rs id = first_free (length rs.all + 2) rs.all (suggest_unique id) 0 id

  unfoldable pub add_new : Recipes N → Recipe N → Option (Recipes N × RecipeId)
  unfolding get_unique_id
  add_new rs new_recipe = elim (get_unique_id rs default_id) [
    | none ↦ none
    | some id ↦ some (record rs { all = (OrdHashMap.insert id new_recipe rs.all).0 }, id)
  ]

  unfoldable pub add_inexistent : Recipes N → RecipeId → Recipe N → Option (Recipes N)
  add_inexistent rs new_recipe_id new_recipe =
      let (all, previous) = OrdHashMap.insert new_recipe_id new_recipe rs.all in
      elim previous [ none ↦ some (record rs { all = all }) | some r ↦ none ]

  -- A recipe that was there is put back by a second insertion, and the new one returned.
  unfoldable pub try_add :
      Recipes N → RecipeId → Recipe N → Option (Recipes N × Result (Recipe N) (Unit {0}))
  try_add rs id new_recipe =
      let (all, previous) = OrdHashMap.insert id new_recipe rs.all in
      elim previous [
        | none ↦ some (record rs { all = all }, ok tt)
        | some x ↦
            let (all', added) = OrdHashMap.insert id x all in
            elim added [ none ↦ none | some r ↦ some (record rs { all = all' }, err r) ]
      ]

  unfoldable pub update_recipe_id :
      Recipes N → RecipeId → RecipeId → Recipes N × Result TransactionError (Unit {0})
  update_recipe_id rs old_id new_id =
      if OrdHashMap.contains_key new_id rs.all
      then (rs, err (recipe_already_exists new_id))
      else (let (all, removed) = OrdHashMap.remove old_id rs.all in
          elim removed [
            | none ↦ (rs, err (unknown_recipe_id old_id))
            | some recipe ↦ (
              record rs {
                active_id = if rs.active_id == old_id then new_id else rs.active_id;
                all = (OrdHashMap.insert new_id recipe all).0;
              },
              ok tt,
            )
          ])

  unfoldable pub remove :
      Recipes N → RecipeId → Option (Recipes N × Result RemoveRecipeError (Recipe N))
  unfolding active_without_id
  remove rs id = elim (active_without_id rs) [
    | none ↦ none
    | some active ↦
        let (all, removed) = OrdHashMap.remove id rs.all in
        let absent : Recipes N × Result RemoveRecipeError (Recipe N) = elim removed [
          | none ↦ (rs, err (unknown_removed id))
          | some r ↦ (record rs { all = all }, ok r)
        ] in
        if id == rs.active_id then some (rs, err is_active) else some absent
  ]

  -- `get_device`: the device of the first recipe of the table that has it.
  abbrev pub first_device : DeviceId → List (Recipe N) → Option (DeviceConfig N)
  first_device id [] = none
  first_device id (r ∷ recipes) = elim (OrdHashMap.get id r.devices) [
    | some d ↦ some d
    | none ↦ first_device id recipes
  ]

  unfoldable pub get_device : Recipes N → DeviceId → Option (DeviceConfig N)
  get_device rs id = first_device id (OrdHashMap.values rs.all)

  unfoldable pub iter_with_backup : Recipes N → List (RecipeId × Recipe N)
  iter_with_backup rs = (rs.active_id, rs.active_backup) ∷ OrdHashMap.iter_unordered rs.all

module _ {N : Type 0} ⦃e : PartialEq N⦄ where
  -- `zip` and `any`, at different entries.
  abbrev pub any_differs :
      List (DeviceId × DeviceConfig N) → List (DeviceId × DeviceConfig N) → Bool
  any_differs (a ∷ as') (b ∷ bs) = not (a == b) || any_differs as' bs
  any_differs [] bs = false
  any_differs as' [] = false

  abbrev pub differs : Recipe N → Recipe N → Bool
  differs running backup =
      if not (nat_beq (count_devices running) (count_devices backup))
      then true
      else any_differs (OrdHashMap.iter_ordered backup.devices)
          (OrdHashMap.iter_ordered running.devices)

  unfoldable pub has_active_changes : Recipes N → Option Bool
  unfolding active_without_id count_devices
  has_active_changes rs = elim (active_without_id rs) [
    | none ↦ none
    | some running ↦ some (differs running rs.active_backup)
  ]

  unfoldable pub has_uncommitted_changes : Recipes N → RecipeId → Option Bool
  unfolding has_active_changes
  has_uncommitted_changes rs id =
      let changed = has_active_changes rs in if rs.active_id == id then changed else some false

  unfoldable pub set_active :
      Recipes N → RecipeId → Option (Recipes N × Result SetActiveError (List DeviceId))
  set_active rs id = elim (get_with_id rs id) [
    | none ↦ some (rs, err (unknown_recipe id))
    | some recipe ↦ elim (has_active_changes rs) [
      | none ↦ none
      | some changed ↦ some (
          if changed then (rs, err uncommitted_changes) else (
            record rs { active_id = id; active_backup = recipe },
            ok (map (λ x. x.0) (OrdHashMap.iter_unordered recipe.devices)),
          ))
    ]
  ]
