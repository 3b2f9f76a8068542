-- ===== src/Upload/Defs.antt =====
-- pilatus-axum-rt/src/recipe/import/websocket_reader.rs: an upload over a websocket, read as a stream
-- of bytes. The messages of the socket are a list that the reader takes from; an item may be a poll
-- at which no message is there yet.
use pilatus.Base.{
  ℕ, ◌+◌, ◌-◌, ◌*◌, Option, none, some, List, [], ◌∷◌, if◌then◌else◌, ◌==◌, nat_eq, length, ltb,
  leb, take, drop,
}

pub data Message : Type 0 where
  binary : List ℕ → Message
  other_kind : Message

pub data Item : Type 0 where
  item : Message → Item
  failed : Item
  waiting : Item

pub data ErrorKind : Type 0 where
  invalid_data other_error : ErrorKind

-- A poll: not yet, the bytes that were put into the buffer, or an error.
pub data Poll : Type 0 where
  pending : Poll
  ready : List ℕ → Poll
  error : ErrorKind → Poll

pub record ExtractVec : Type 0 where
  pub pos : ℕ
  pub bytes : List ℕ

pub record RunningState : Type 0 where
  pub remaining : ℕ
  pub buffer : Option ExtractVec
  pub stream : List Item

pub data ReaderState : Type 0 where
  init : List Item → ReaderState
  running : RunningState → ReaderState
  finished : ReaderState

unfoldable pub len : ExtractVec → ℕ
len v = length v.bytes - v.pos

abbrev pub min : ℕ → ℕ → ℕ
min a b = if leb a b then a else b

-- The bytes, and the vector after them.
unfoldable pub extract_max : ExtractVec → ℕ → List ℕ × ExtractVec
extract_max v capacity =
    let to_read = min (length v.bytes - v.pos) capacity in
    (take to_read (drop v.pos v.bytes), record v { pos = v.pos + to_read })

-- `u64::from_le_bytes`
abbrev pub from_le_bytes : List ℕ → ℕ
from_le_bytes [] = 0
from_le_bytes (b ∷ rest) = b + 256 * from_le_bytes rest

-- Reading ends when nothing remains; `none` where the subtraction would go below 0.
unfoldable pub from_running_to_finish_unchecked :
    ℕ → List ℕ → RunningState → Option (ReaderState × Poll)
from_running_to_finish_unchecked old_remaining written state =
    let new_remainer = old_remaining - length written in
    if ltb old_remaining (length written)
    then none
    else (if new_remainer == 0
        then some (finished, ready written)
        else some (running (record state { remaining = new_remainer }), ready written))

unfoldable pub read_buffer : RunningState → ExtractVec → ℕ → Option (ReaderState × Poll)
read_buffer state v capacity =
    let (to_be_written, rest) = extract_max v capacity in
    if ltb state.remaining (len v)
    then some (running state, error invalid_data)
    else from_running_to_finish_unchecked state.remaining to_be_written
        (record state { buffer = if len rest == 0 then none else some rest })

-- A new message of the stream, of which `rest` follows.
unfoldable pub read_message : ℕ → List ℕ → List Item → ℕ → Option (ReaderState × Poll)
read_message remaining message rest capacity =
    let state : RunningState = record { remaining = remaining; buffer = none; stream = rest } in
    let kept : ExtractVec = record { pos = capacity; bytes = message } in
    if ltb remaining (length message)
    then some (running state, error invalid_data)
    else (if leb (length message) capacity
        then from_running_to_finish_unchecked remaining message state
        else from_running_to_finish_unchecked remaining (take capacity message)
            (record state { buffer = some kept }))

abbrev pub read_stream : ℕ → List Item → ℕ → Option (ReaderState × Poll)
read_stream remaining (item (binary message) ∷ rest) capacity =
    read_message remaining message rest capacity
read_stream remaining (item other_kind ∷ rest) capacity =
    some
      (running (record { remaining = remaining; buffer = none; stream = rest }), error invalid_data)
read_stream remaining [] capacity =
    some
      (running (record { remaining = remaining; buffer = none; stream = [] }), error invalid_data)
read_stream remaining (failed ∷ rest) capacity =
    some
      (running (record { remaining = remaining; buffer = none; stream = rest }), error other_error)
read_stream remaining (waiting ∷ rest) capacity =
    some (running (record { remaining = remaining; buffer = none; stream = rest }), pending)

abbrev pub read_running : ℕ → List Item → Option ExtractVec → ℕ → Option (ReaderState × Poll)
read_running remaining stream (some v) capacity =
    read_buffer (record { remaining = remaining; buffer = some v; stream = stream }) v capacity
read_running remaining stream none capacity = read_stream remaining stream capacity

-- The first message has the number of bytes to come; `none` where it has less than 8 bytes.
abbrev pub read_init : List Item → ℕ → Option (ReaderState × Poll)
read_init (item (binary r) ∷ rest) capacity =
    let first = read_stream (from_le_bytes (take 8 r)) rest capacity in
    if ltb (length r) 8 then none else first
read_init (item other_kind ∷ rest) capacity = some (init rest, error invalid_data)
read_init [] capacity = some (init [], error invalid_data)
read_init (failed ∷ rest) capacity = some (init rest, error invalid_data)
read_init (waiting ∷ rest) capacity = some (init rest, pending)

-- `poll_read` into a buffer with room for `capacity` bytes.
unfoldable pub poll_read : ReaderState → ℕ → Option (ReaderState × Poll)
poll_read (init stream) capacity = read_init stream capacity
poll_read (running state) capacity = read_running state.remaining state.stream state.buffer capacity
poll_read finished capacity = some (finished, ready [])
