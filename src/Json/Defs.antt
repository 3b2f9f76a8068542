-- ===== src/Json/Defs.antt =====
-- JSON values. The fields of an object stand in the order of the map that holds them.
use pilatus.Base.{Bool, true, false, Option, none, some, if◌then◌else◌, ◌==◌, nat_eq, list_eq}
use pilatus.Base.Text.{Text}

mutual
  pub data Json (N : Type 0) : Type 0 where
    null : Json N
    bool : Bool → Json N
    number : N → Json N
    string : Text → Json N
    array : Items N → Json N
    object : Fields N → Json N

  pub data Items (N : Type 0) : Type 0 where
    nil : Items N
    cons : Json N → Items N → Items N

  pub data Fields (N : Type 0) : Type 0 where
    end : Fields N
    field : Text → Json N → Fields N → Fields N

module _ {N : Type 0} where
  -- `Map::get`
  abbrev pub get_field : Text → Fields N → Option (Json N)
  get_field k end = none
  get_field k (field j v fs) = if j == k then some v else get_field k fs

  -- `Map::remove`, for the fields that stay.
  abbrev pub remove_field : Text → Fields N → Fields N
  remove_field k end = end
  remove_field k (field j v fs) = if j == k then fs else field j v (remove_field k fs)

  -- Whether a map has more than one key, at a map that has one.
  abbrev pub has_more : Fields N → Bool
  has_more end = false
  has_more (field j v end) = false
  has_more (field j v (field k w fs)) = true
