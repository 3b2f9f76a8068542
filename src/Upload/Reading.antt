-- ===== src/Upload/Reading.antt =====
-- An upload is read to its end.
use pilatus.Base.{
  ℕ, ◌+◌, ◌-◌, ◌≡◌, ◌≤◌, ◌<◌, refl, ap, ◌∙◌, sym, true, false, Option, none, some, List, [], ◌∷◌,
  ◌++◌, ◌==◌, nat_eq, inl, inr, ◌⊎◌, Bool-cases, arith, length, length-append, append_assoc,
  append-nil, ltb, leb, take, drop, take_all, take-append-drop, length-take, drop-add, length-drop,
  All, eq_of_test, ne_of_test, leb→le,
}
use pilatus.Upload.Defs.{
  binary, other_kind, Item, item, failed, waiting, Poll, pending, ready, ExtractVec, RunningState,
  ReaderState, running, finished, len, extract_max, from_running_to_finish_unchecked, read_buffer,
  read_message, read_running, poll_read,
}

-- The bytes of the messages to come.
abbrev pub bytes_of : List Item → List ℕ
bytes_of [] = []
bytes_of (item (binary message) ∷ rest) = message ++ bytes_of rest
bytes_of (_ ∷ rest) = bytes_of rest

abbrev pub IsChunk : Item → Type 0
IsChunk (item (binary (b ∷ message))) = Unit
IsChunk waiting = Unit
IsChunk _ = ⊥

abbrev pub kept : Option ExtractVec → List ℕ
kept none = []
kept (some v) = drop v.pos v.bytes

-- The bytes that the reader has not delivered.
abbrev pub left : RunningState → List ℕ
left state = kept state.buffer ++ bytes_of state.stream

abbrev IsKept : Option ExtractVec → Type 0
IsKept none = Unit
IsKept (some v) = v.pos < length v.bytes

-- As many bytes remain as are to come, at least one, in messages that are not empty.
abbrev pub IsReading : RunningState → Type 0
IsReading state =
    (state.remaining ≡ length (left state))
    × (1 ≤ state.remaining)
    × All IsChunk state.stream
    × IsKept state.buffer

abbrev pub weight : RunningState → ℕ
weight state = state.remaining + length state.stream

-- One poll: either no message is there yet, or bytes are delivered, the last of them or not.
abbrev Polled : RunningState → ℕ → Option (ReaderState × Poll) → Type 0
Polled state capacity o =
    ((next : RunningState) × (o ≡ some (running next, pending))
      × (left state ≡ left next)
      × (weight next < weight state)
      × IsReading next)
    ⊎ ((next : RunningState) × (b : ℕ) × (out : List ℕ) × (o ≡ some (running next, ready (b ∷ out)))
        × (left state ≡ (b ∷ out) ++ left next)
        × (length (b ∷ out) ≤ capacity)
        × (weight next < weight state)
        × IsReading next)
    ⊎ ((b : ℕ) × (out : List ℕ) × (o ≡ some (finished, ready (b ∷ out)))
        × (left state ≡ b ∷ out)
        × (length (b ∷ out) ≤ capacity))

empty : (xs : List ℕ) → length xs ≡ 0 → xs ≡ []
empty [] h = refl
empty (x ∷ xs) h = absurd (omega (arith, h))

-- Bytes are written of those that are left.
finish_Polled :
    (state : RunningState) (written : List ℕ) (after : RunningState) (capacity : ℕ)
    → IsReading state
    → left state ≡ written ++ left after
    → 1 ≤ length written
    → length written ≤ capacity
    → length after.stream ≤ length state.stream
    → All IsChunk after.stream
    → IsKept after.buffer
    → Polled state capacity (from_running_to_finish_unchecked state.remaining written after)
unfolding from_running_to_finish_unchecked
finish_Polled state [] after capacity reading e some_byte room less chunks held =
    absurd (omega (arith, some_byte))
finish_Polled state (b ∷ out) after capacity (size, more, chunks_before, held_before) e some_byte
      room less chunks held =
    let written : List ℕ = b ∷ out in
    let total : state.remaining ≡ length written + length (left after) =
      size ∙ ap length e ∙ length-append written (left after) in
    let enough : ltb state.remaining (length written) ≡ false = ground (arith, total) in
    elim (Bool-cases (state.remaining - length written == 0)) [
      | inl last ↦
          let none_left : length (left after) ≡ 0 =
            omega (arith, total, eq_of_test (state.remaining - length written) 0 last) in
          inr (
            inr (
              b,
              out,
              rw (enough, last) refl,
              e ∙ ap (λ l. written ++ l) (empty (left after) none_left) ∙ append-nil written,
              room,
            ))
      | inr going ↦
          let some_left = ne_of_test (state.remaining - length written) 0 going in
          inr (
            inl (
              record after { remaining = state.remaining - length written },
              b,
              out,
              rw (enough, going) refl,
              e,
              room,
              omega (arith, less, some_byte, total),
              (omega (arith, total), omega (arith, some_left), chunks, held),
            ))
    ]

read_buffer-Polled :
    (remaining : ℕ) (v : ExtractVec) (stream : List Item) (capacity : ℕ)
    → let state : RunningState = record {
      remaining = remaining;
      buffer = some v;
      stream = stream;
    } in
      IsReading state → 1 ≤ capacity → Polled state capacity (read_buffer state v capacity)
unfolding read_buffer extract_max len
read_buffer-Polled remaining v stream capacity (size, more, chunks, held) room =
    let state : RunningState = record { remaining = remaining; buffer = some v; stream = stream } in
    let n = length v.bytes - v.pos in
    let rest : List ℕ = drop v.pos v.bytes in
    let whole = length-drop v.pos v.bytes (omega (arith, held)) in
    let enough : ltb remaining n ≡ false =
      ground (arith, size, whole, length-append rest (bytes_of stream)) in
    elim (Bool-cases (leb n capacity)) [
      | inl fits ↦
          let all : n ≡ length rest = omega (arith, whole) in
          let end_reached : (length v.bytes - (v.pos + n) == 0) ≡ true = ground (arith, held) in
          let same : take n rest ≡ rest = ap (λ k. take k rest) all ∙ take_all rest in
          rw (enough, fits, end_reached)
            (finish_Polled state (take n rest)
              (record { remaining = remaining; buffer = none; stream = stream }) capacity
              (size, more, chunks, held) (ap (λ l. l ++ bytes_of stream) (sym same))
              (omega (arith, ap length same, all, held))
              (omega (arith, ap length same, all, leb→le n capacity fits)) (omega arith) chunks tt)
      | inr beyond ↦
          let less : capacity < n = ground (arith, beyond) in
          let further : (length v.bytes - (v.pos + capacity) == 0) ≡ false = ground (arith, less) in
          let size_taken = length-take capacity rest (omega (arith, whole, less)) in
          rw (enough, beyond, further)
            (finish_Polled state (take capacity rest)
              (record {
                remaining = remaining;
                buffer = some (record v { pos = v.pos + capacity });
                stream = stream;
              })
              capacity (size, more, chunks, held)
              (ap (λ l. l ++ bytes_of stream) (sym (take-append-drop capacity rest))
                ∙ append_assoc (take capacity rest) (drop capacity rest) (bytes_of stream)
                ∙ ap (λ l. take capacity rest ++ (l ++ bytes_of stream))
                    (sym (drop-add v.pos capacity v.bytes)))
              (omega (arith, size_taken, room)) (omega (arith, size_taken)) (omega arith) chunks
              (omega (arith, less)))
    ]

read_message-Polled :
    (remaining : ℕ) (message : List ℕ) (rest : List Item) (capacity : ℕ)
    → let state : RunningState = record {
      remaining = remaining;
      buffer = none;
      stream = item (binary message) ∷ rest;
    } in
      IsReading state
      → 1 ≤ capacity
      → Polled state capacity (read_message remaining message rest capacity)
unfolding read_message
read_message-Polled remaining [] rest capacity (size, more, (chunk, chunks), held) room =
    absurd chunk
read_message-Polled remaining (b ∷ message) rest capacity (size, more, (chunk, chunks), held) room =
    let state : RunningState = record {
      remaining = remaining;
      buffer = none;
      stream = item (binary (b ∷ message)) ∷ rest;
    } in
    let all : List ℕ = b ∷ message in
    let after : RunningState = record { remaining = remaining; buffer = none; stream = rest } in
    let enough : ltb remaining (length all) ≡ false =
      ground (arith, size, length-append all (bytes_of rest)) in
    elim (Bool-cases (leb (length all) capacity)) [
      | inl fits ↦
          rw (enough, fits)
            (finish_Polled state all after capacity (size, more, (chunk, chunks), held) refl
              (omega arith) (leb→le (length all) capacity fits) (omega arith) chunks tt)
      | inr beyond ↦
          let size_taken = length-take capacity all (ground (arith, beyond)) in
          let held_after : ExtractVec = record { pos = capacity; bytes = all } in
          rw (enough, beyond)
            (finish_Polled state (take capacity all)
              (record { remaining = remaining; buffer = some held_after; stream = rest }) capacity
              (size, more, (chunk, chunks), held)
              (ap (λ l. l ++ bytes_of rest) (sym (take-append-drop capacity all))
                ∙ append_assoc (take capacity all) (drop capacity all) (bytes_of rest))
              (omega (arith, size_taken, room)) (omega (arith, size_taken)) (omega arith) chunks
              (ground (arith, beyond)))
    ]

-- A poll of a reader that reads, into a buffer with room.
pub poll_read_lem :
    (state : RunningState) (capacity : ℕ)
    → IsReading state
    → 1 ≤ capacity
    → Polled state capacity (poll_read (running state) capacity)
unfolding poll_read
poll_read_lem state capacity reading room = go state.buffer state.stream reading
  where
    go :
        (buffer : Option ExtractVec) (stream : List Item)
        → let s : RunningState = record {
          remaining = state.remaining;
          buffer = buffer;
          stream = stream;
        } in
          IsReading s → Polled s capacity (read_running state.remaining stream buffer capacity)
    go (some v) stream h = read_buffer-Polled state.remaining v stream capacity h room
    go none (item (binary message) ∷ rest) h =
        read_message-Polled state.remaining message rest capacity h room
    go none (item other_kind ∷ rest) (size, more, (chunk, chunks), held) = absurd chunk
    go none (failed ∷ rest) (size, more, (chunk, chunks), held) = absurd chunk
    go none [] (size, more, chunks, held) = absurd (omega (arith, size, more))
    go none (waiting ∷ rest) (size, more, (chunk, chunks), held) =
        inl (_, refl, refl, omega arith, (size, more, chunks, held))
