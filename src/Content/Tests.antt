-- ===== src/Content/Tests.antt =====
-- A reader over a list, and the theorems at concrete inputs.
use pilatus.Base.{
  ℕ, ◌≡◌, ◌≢◌, refl, true, false, some, List, [], ◌∷◌, take, drop, nat_eq, list_eq, arith,
}
use pilatus.Base.Bytes.{zeros, copy_at}
use pilatus.Base.Result.{ok}
use pilatus.Content.Defs.{AsyncRead, min, rounds, is_content_equal}
use pilatus.Content.Full.{Fills, is_content_equal-full}
use pilatus.Content.Stale.{pieces, joined, is_content_equal_stale}

-- `Cursor`
abbrev cursor : AsyncRead (Unit {0})
cursor = record { State = List ℕ; read = λ room xs. ok (take room xs, drop room xs) }

cursor-Fills : Fills cursor (λ xs. xs)
cursor-Fills = record { next = drop; read-ok = λ room xs. refl; content-next = λ room xs. refl }

shorter : is_content_equal cursor cursor 3 (1 ∷ 2 ∷ []) (1 ∷ []) ≡ some (ok false)
unfolding is_content_equal rounds min copy_at zeros
shorter = refl

is_content_equal-full_example :
    is_content_equal cursor cursor 4 (1 ∷ 2 ∷ []) (1 ∷ 2 ∷ []) ≡ some (ok true)
is_content_equal-full_example =
    is_content_equal-full cursor cursor cursor-Fills cursor-Fills 4 (1 ∷ 2 ∷ []) (1 ∷ 2 ∷ [])
      (omega arith)

is_content_equal_stale_example :
    (joined ((1 ∷ 2 ∷ []) ∷ []) ≡ joined ((1 ∷ []) ∷ (2 ∷ []) ∷ []))
    × (is_content_equal pieces pieces 3 ((1 ∷ 2 ∷ []) ∷ []) ((1 ∷ []) ∷ (2 ∷ []) ∷ [])
        ≡ some (ok false))
    × (joined ((1 ∷ 2 ∷ []) ∷ []) ≢ joined ((1 ∷ []) ∷ (1 ∷ []) ∷ []))
    × (is_content_equal pieces pieces 3 ((1 ∷ 2 ∷ []) ∷ []) ((1 ∷ []) ∷ (1 ∷ []) ∷ [])
        ≡ some (ok true))
is_content_equal_stale_example = is_content_equal_stale 1 2 0 (omega arith)
