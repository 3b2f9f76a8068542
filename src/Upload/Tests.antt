-- ===== src/Upload/Tests.antt =====
-- An upload of three bytes in two messages.
use pilatus.Base.{ℕ, ◌≡◌, refl, some, none, List, [], ◌∷◌, arith}
use pilatus.Base.Result.{ok, err}
use pilatus.Upload.Defs.{
  binary, other_kind, Item, item, waiting, invalid_data, init, running, len, extract_max,
  from_running_to_finish_unchecked, read_buffer, read_message, poll_read,
}
use pilatus.Upload.Reading.{bytes_of}
use pilatus.Upload.Ends.{drained, drained_lem, empty_message_ends}

run : Unit {0}
unfolding len extract_max from_running_to_finish_unchecked read_buffer read_message poll_read
    drained
run = tt

abbrev header : List ℕ
header = 3 ∷ 0 ∷ 0 ∷ 0 ∷ 0 ∷ 0 ∷ 0 ∷ 0 ∷ []

abbrev chunks : List Item
chunks = item (binary (7 ∷ 8 ∷ [])) ∷ waiting ∷ item (binary (9 ∷ [])) ∷ []

-- The source's tests: a text at first, and too many bytes.
text_first : drained 9 (λ n. 1) (init (item other_kind ∷ [])) ≡ some (err invalid_data)
unfolding run
text_first = refl

too_many :
    drained 9 (λ n. 4) (init (item (binary header) ∷ item (binary (1 ∷ 2 ∷ 3 ∷ 4 ∷ [])) ∷ []))
    ≡ some (err invalid_data)
unfolding run
too_many = refl

drained_lem_example :
    drained 7 (λ n. 1) (init (item (binary header) ∷ chunks)) ≡ some (ok (bytes_of chunks))
drained_lem_example =
    drained_lem header chunks (λ n. 1) 7 (omega arith) refl (omega arith) (tt, (tt, (tt, tt)))
      (λ n. omega arith) (omega arith)

empty_message_ends_example :
    drained 1
      (λ n. 4)
      (running (record { remaining = 5; buffer = none; stream = item (binary []) ∷ chunks }))
    ≡ some (ok [])
empty_message_ends_example = empty_message_ends 5 0 chunks (λ n. 4) (omega arith)
