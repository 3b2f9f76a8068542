-- ===== src/Upload/Ends.antt =====
-- The whole upload, polled until its end.
use pilatus.Base.{
  ℕ, zero, suc, ◌+◌, ◌-◌, ◌≡◌, ◌≤◌, ◌<◌, refl, ap, ◌∙◌, sym, true, false, Option, none, some, List,
  [], ◌∷◌, ◌++◌, if◌then◌else◌, ◌==◌, nat_eq, inl, inr, arith, length, append-nil, ltb, leb, take,
  All,
}
use pilatus.Base.Result.{Result, ok, err}
use pilatus.Upload.Defs.{
  binary, Item, item, ErrorKind, Poll, pending, ready, error, RunningState, ReaderState, init,
  running, finished, from_le_bytes, from_running_to_finish_unchecked, read_message, read_stream,
  poll_read,
}
use pilatus.Upload.Reading.{bytes_of, IsChunk, left, IsReading, weight, poll_read_lem}

abbrev pub prepend :
    List ℕ → Option (Result ErrorKind (List ℕ)) → Option (Result ErrorKind (List ℕ))
prepend out none = none
prepend out (some (ok rest)) = some (ok (out ++ rest))
prepend out (some (err e)) = some (err e)

abbrev pub after_poll :
    (ReaderState → Option (Result ErrorKind (List ℕ)))
    → Option (ReaderState × Poll)
    → Option (Result ErrorKind (List ℕ))
after_poll later none = none
after_poll later (some (state, pending)) = later state
after_poll later (some (state, ready [])) = some (ok [])
after_poll later (some (state, ready (b ∷ out))) = prepend (b ∷ out) (later state)
after_poll later (some (state, error e)) = some (err e)

-- Polling into buffers of any sizes until a poll delivers nothing, which says that there is no more;
-- `none` where that takes more polls than `fuel`, or a poll panics.
unfoldable pub drained : ℕ → (ℕ → ℕ) → ReaderState → Option (Result ErrorKind (List ℕ))
drained zero capacity state = none
drained (suc fuel) capacity state =
    after_poll (drained fuel capacity) (poll_read state (capacity fuel))

drained_finished :
    (fuel : ℕ) (capacity : ℕ → ℕ) → 1 ≤ fuel → drained fuel capacity finished ≡ some (ok [])
unfolding drained poll_read
drained_finished zero capacity h = absurd (omega (arith, h))
drained_finished (suc fuel) capacity h = refl

drained_running :
    (fuel : ℕ) (capacity : ℕ → ℕ) (state : RunningState)
    → ((n : ℕ) → 1 ≤ capacity n)
    → IsReading state
    → weight state < fuel
    → drained fuel capacity (running state) ≡ some (ok (left state))
unfolding drained
drained_running zero capacity state room reading h = absurd (omega (arith, h))
drained_running (suc fuel) capacity state room reading h =
    elim (poll_read_lem state (capacity fuel) reading (room fuel)) [
      | inl (later, e, same, less, reading') ↦
          ap (after_poll (drained fuel capacity)) e
          ∙ drained_running fuel capacity later room reading' (omega (arith, h, less))
          ∙ ap (λ l. some (ok l)) (sym same)
      | inr (inl (later, b, out, e, same, fits, less, reading')) ↦
          ap (after_poll (drained fuel capacity)) e
          ∙ ap (prepend (b ∷ out))
              (drained_running fuel capacity later room reading' (omega (arith, h, less)))
          ∙ ap (λ l. some (ok l)) (sym same)
      | inr (inr (b, out, e, same, fits)) ↦
          ap (after_poll (drained fuel capacity)) e
          ∙ ap (prepend (b ∷ out)) (drained_finished fuel capacity (omega (arith, h, reading.1)))
          ∙ ap (λ l. some (ok l)) (append-nil (b ∷ out) ∙ sym same)
    ]

-- An upload whose first message announces, in its first 8 bytes, the number of the bytes of the
-- messages after it, at least one, none of them empty and all of them binary: it is read completely
-- and in order, into buffers of any sizes but 0, however long the messages let wait. Polling ends.
pub drained_lem :
    (header : List ℕ) (stream : List Item) (capacity : ℕ → ℕ) (fuel : ℕ)
    → 8 ≤ length header
    → from_le_bytes (take 8 header) ≡ length (bytes_of stream)
    → 1 ≤ length (bytes_of stream)
    → All IsChunk stream
    → ((n : ℕ) → 1 ≤ capacity n)
    → length (bytes_of stream) + length stream < fuel
    → drained fuel capacity (init (item (binary header) ∷ stream)) ≡ some (ok (bytes_of stream))
unfolding drained poll_read
drained_lem header stream capacity zero long size some_byte chunks room enough =
    absurd (omega (arith, enough))
drained_lem header stream capacity (suc fuel) long size some_byte chunks room enough =
    let n = from_le_bytes (take 8 header) in
    let state : RunningState = record { remaining = n; buffer = none; stream = stream } in
    let not_short : ltb (length header) 8 ≡ false = ground (arith, long) in
    ap
      (λ b.
        after_poll (drained fuel capacity)
          (if b then none else read_stream n stream (capacity fuel)))
      not_short
    ∙ drained_running (suc fuel) capacity state room
        (size, omega (arith, size, some_byte), chunks, tt) (omega (arith, size, enough))

-- An empty message ends the upload without an error, however many bytes remain, at least one.
pub empty_message_ends :
    (remaining fuel : ℕ) (rest : List Item) (capacity : ℕ → ℕ)
    → 1 ≤ remaining
    → drained (suc fuel) capacity (
        running (record { remaining = remaining; buffer = none; stream = item (binary []) ∷ rest }))
      ≡ some (ok [])
unfolding drained poll_read read_message from_running_to_finish_unchecked
empty_message_ends remaining fuel rest capacity some_byte =
    let enough : ltb remaining 0 ≡ false = ground arith in
    let fits : leb 0 (capacity fuel) ≡ true = ground arith in
    let going : (remaining - 0 == 0) ≡ false = ground (arith, some_byte) in
    rw (read_message, enough, fits, from_running_to_finish_unchecked, going) refl
