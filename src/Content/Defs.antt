-- ===== src/Content/Defs.antt =====
-- The loop of `is_content_equal` over two readers, with the buffers as they are: what a read does
-- not overwrite stays in them.
use pilatus.Base.{
  ℕ, zero, suc, ◌+◌, ◌-◌, Bool, false, not, Option, none, some, List, length, take, ◌==◌, nat_eq,
  list_eq, leb, if◌then◌else◌,
}
use pilatus.Base.Bytes.{zeros, copy_at}
use pilatus.Base.Result.{Result, ok, err}

-- `AsyncRead`: a read into a buffer that has room for some bytes delivers bytes, or fails. The
-- readers and their errors are outside.
pub record AsyncRead (E : Type 0) : Type 1 where
  pub State : Type 0
  pub read : (room : ℕ) → State → Result E (List ℕ × State)

unfoldable pub min : ℕ → ℕ → ℕ
min a b = if leb a b then a else b

module _ {E : Type 0} (A B : AsyncRead E) where
  abbrev pub Outcome : Type 0
  Outcome = Option (Result E Bool)

  -- A round: the error of the first reader comes first. `again` is the next round.
  abbrev pub round :
      ((buf_a buf_b : List ℕ) (remaining_a remaining_b : ℕ) → A.State → B.State → Outcome)
      → (buf_a buf_b : List ℕ) (remaining_a remaining_b : ℕ) → Result E (List ℕ × A.State)
      → Result E (List ℕ × B.State)
      → Outcome
  round again buf_a buf_b remaining_a remaining_b (err e) read_b = some (err e)
  round again buf_a buf_b remaining_a remaining_b (ok read_a) (err e) = some (err e)
  round again buf_a buf_b remaining_a remaining_b (ok (xs, a)) (ok (ys, b)) =
      let a_bytes = length xs + remaining_a in
      let b_bytes = length ys + remaining_b in
      let m = min a_bytes b_bytes in
      let next_a = copy_at remaining_a xs buf_a in
      let next_b = copy_at remaining_b ys buf_b in
      if m == 0
      then some (ok (a_bytes == b_bytes))
      else (if not (take m next_a == take m next_b)
          then some (ok false)
          else again next_a next_b (a_bytes - m) (b_bytes - m) a b)

  -- On fuel, one for each round; none where it runs out. A round reads behind the bytes that are
  -- said to remain.
  unfoldable pub rounds :
      ℕ → (buf_a buf_b : List ℕ) (remaining_a remaining_b : ℕ) → A.State → B.State → Outcome
  rounds zero buf_a buf_b remaining_a remaining_b a b = none
  rounds (suc fuel) buf_a buf_b remaining_a remaining_b a b =
      round (rounds fuel) buf_a buf_b remaining_a remaining_b
        (A.read (length buf_a - remaining_a) a) (B.read (length buf_b - remaining_b) b)

  unfoldable pub is_content_equal : ℕ → A.State → B.State → Outcome
  is_content_equal fuel a b = rounds fuel (zeros 4096) (zeros 4096) 0 0 a b
