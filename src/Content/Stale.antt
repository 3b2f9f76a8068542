-- ===== src/Content/Stale.antt =====
-- With a reader that delivers less than there is room for, bytes are compared a second time.
use pilatus.Base.{
  ℕ, suc, ◌≡◌, ◌≢◌, refl, true, false, some, List, [], ◌∷◌, ◌++◌, take, drop, eq_refl, test_of_ne,
  nat_eq,
}
use pilatus.Base.Bytes.{zeros, copy_at}
use pilatus.Base.Result.{Result, ok}
use pilatus.Content.Defs.{AsyncRead, min, rounds, is_content_equal}

-- What is left of a piece after a read.
abbrev pub left_over : List ℕ → List (List ℕ) → List (List ℕ)
left_over [] pieces = pieces
left_over (x ∷ xs) pieces = (x ∷ xs) ∷ pieces

abbrev pub read_piece : ℕ → List (List ℕ) → Result (Unit {0}) (List ℕ × List (List ℕ))
read_piece room [] = ok ([], [])
read_piece room (piece ∷ pieces) = ok (take room piece, left_over (drop room piece) pieces)

-- A reader over pieces, as a network or a pipe delivers them.
abbrev pub pieces : AsyncRead (Unit {0})
pieces = record { State = List (List ℕ); read = read_piece }

abbrev pub joined : List (List ℕ) → List ℕ
joined [] = []
joined (piece ∷ pieces) = piece ++ joined pieces

-- If readers deliver pieces, the answer can be wrong in both ways: for different bytes x and y, the
-- content x y in one piece counts as different from the content x y in two pieces, and as equal to
-- the content x x in two pieces.
pub is_content_equal_stale :
    (x y fuel : ℕ)
    → x ≢ y
    → let whole = (x ∷ y ∷ []) ∷ [] in
      let same = (x ∷ []) ∷ (y ∷ []) ∷ [] in
      let other = (x ∷ []) ∷ (x ∷ []) ∷ [] in
      let compare = is_content_equal pieces pieces (suc (suc (suc fuel))) in
      (joined whole ≡ joined same)
      × (compare whole same ≡ some (ok false))
      × (joined whole ≢ joined other)
      × (compare whole other ≡ some (ok true))
unfolding is_content_equal rounds min copy_at zeros
is_content_equal_stale x y fuel h =
    (refl, rw (eq_refl x, test_of_ne x y h) refl, λ p. h (cc p), rw (eq_refl x) refl)
