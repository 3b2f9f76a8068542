-- ===== src/Image/Keys.antt =====
-- pilatus-engineering/src/image/keys and message.rs: the image of a message and its other images, by
-- their names. Which characters are letters or digits is a parameter.
use pilatus.Base.{
  ℕ, ◌≡◌, refl, Bool, Option, none, some, [], ◌∷◌, if◌then◌else◌, ◌==◌, nat_eq, list_eq, option_eq,
  all,
}
use pilatus.Base.Text.{Text}
use pilatus.Base.Result.{Result, ok, err, map_ok}
use pilatus.HashMap
use pilatus.HashMap.{HashMap, get-insert}
use pilatus.Image.Hash.{StableHash}

abbrev pub SpecificImageKey : Type 0
SpecificImageKey = Text

-- None is the unspecified key.
abbrev pub ImageKey : Type 0
ImageKey = Option SpecificImageKey

pub data KeyError : Type 0 where
  not_alphanumeric no_alphabetic_start empty_key : KeyError

-- `char::is_alphabetic` and `char::is_alphanumeric`
module _ (is_alphabetic is_alphanumeric : ℕ → Bool) where
  unfoldable pub specific_key : Text → Result KeyError SpecificImageKey
  specific_key [] = err empty_key
  specific_key (c ∷ chars) =
      if is_alphabetic c
      then (if all is_alphanumeric chars then ok (c ∷ chars) else err not_alphanumeric)
      else err no_alphabetic_start

  unfoldable pub image_key : Text → Result KeyError ImageKey
  image_key value = map_ok some (specific_key value)

-- `meta` has the hash alone.
pub record ImageWithMeta (T : Type 0) : Type 0 where
  pub image : T
  pub hash : Option StableHash
  pub other : HashMap SpecificImageKey T

module _ {T : Type 0} where
  unfoldable pub with_hash : T → Option StableHash → ImageWithMeta T
  with_hash image hash = record { image = image; hash = hash; other = [] }

  abbrev pub by_name_or : ImageKey → HashMap SpecificImageKey T → T → Option T
  by_name_or none collection default = some default
  by_name_or (some key) collection default = HashMap.get key collection

  unfoldable pub by_name : ImageWithMeta T → ImageKey → Option T
  by_name message name = by_name_or name message.other message.image

  -- The message afterwards, and the old value.
  abbrev pub insert_or : ImageKey → T → ImageWithMeta T → ImageWithMeta T × Option T
  insert_or none value message = (record message { image = value }, some message.image)
  insert_or (some key) value message = (
    record message { other = HashMap.insert key value message.other },
    HashMap.get key message.other,
  )

  unfoldable pub insert : ImageWithMeta T → ImageKey → T → ImageWithMeta T × Option T
  insert message key value = insert_or key value message

  -- `insert` returns what `by_name` found under the key before; afterwards `by_name` finds the
  -- inserted image under the key, and under every other key what it found before.
  pub by_name-insert :
      (message : ImageWithMeta T) (key name : ImageKey) (value : T)
      → ((insert message key value).1 ≡ by_name message key)
        × (by_name (insert message key value).0 name
            ≡ (if key == name then some value else by_name message name))
  unfolding insert by_name
  by_name-insert message none none value = (refl, refl)
  by_name-insert message none (some n) value = (refl, refl)
  by_name-insert message (some k) none value = (refl, refl)
  by_name-insert message (some k) (some n) value = (refl, get-insert k n value message.other)
