-- ===== src/Netconf/Framing/Chunked/RoundTrip.antt =====
-- Reading back what the base:1.1 writer wrote.
use arca_router.Prelude.{
  ℕ, zero, suc, ◌+◌, ◌≤◌, ◌<◌, false, [], ◌∷◌, ◌++◌, ok, err, ◌≡◌, refl, ◌∙◌, ap, arith, ltb, ◌==◌,
  if◌then◌else◌, Bool-cases, inl, inr, ltb→le, length, take, drop, length-append, length-take,
  length-drop, take-append-drop, append-nil, append_assoc, Bytes, append_sink,
}
use arca_router.Netconf.Framing.{
  message_too_large, no_chunk, max_message_size, max_chunk_size, chunk_end, read_chunks,
  read_chunked_message, chunk_header, write, write_chunks, write_chunked_message,
}
use arca_router.Netconf.Framing.Chunked.{read_chunks-chunk, read_chunks-end}

abbrev chunk_size : Bytes → ℕ
chunk_size rest = if ltb max_chunk_size (length rest) then max_chunk_size else length rest

-- The chunks of `rest`, with no sink; the fuel is that of the writer's loop.
chunked : ℕ → Bytes → Bytes
chunked zero rest = []
chunked (suc fuel) rest =
    let later = chunked fuel (drop (chunk_size rest) rest) in
    if length rest == 0
    then []
    else chunk_header (chunk_size rest) ++ (take (chunk_size rest) rest ++ later)

chunk_size_bounds :
    (rest : Bytes)
    → 0 < length rest
    → (0 < chunk_size rest) × (chunk_size rest ≤ max_chunk_size) × (chunk_size rest ≤ length rest)
chunk_size_bounds rest h = ground arith

write_chunks-chunked :
    (fuel : ℕ) (w rest : Bytes)
    → length rest < fuel
    → write_chunks append_sink fuel w rest ≡ ok (w ++ chunked fuel rest)
unfolding write_chunks chunked write
write_chunks-chunked zero w rest h = absurd (omega arith)
write_chunks-chunked (suc fuel) w rest h = elim (Bool-cases (length rest == 0)) [
  | inl done ↦ rw (done, append-nil w) refl
  | inr more ↦
      let size = chunk_size rest in
      let written = (w ++ chunk_header size) ++ take size rest in
      let later =
        write_chunks-chunked fuel written (drop size rest)
          (ground (arith, length-drop size rest)) in
      rw (more, later) (simp append_assoc)
]

chunked-suc :
    (fuel : ℕ) (message tail : Bytes)
    → 0 < length message
    → chunked (suc fuel) message ++ tail
      ≡ chunk_header (chunk_size message)
        ++ (take (chunk_size message) message
            ++ (chunked fuel (drop (chunk_size message) message) ++ tail))
unfolding chunked
chunked-suc fuel [] tail h = absurd (omega arith)
chunked-suc fuel (c ∷ message) tail h =
    let whole = c ∷ message in
    let later = chunked fuel (drop (chunk_size whole) whole) in
    let nonempty : (length whole == 0) ≡ false = ground arith in
    rw nonempty (
      append_assoc (chunk_header (chunk_size whole)) (take (chunk_size whole) whole ++ later) tail
      ∙ ap (◌++◌ (chunk_header (chunk_size whole)))
          (append_assoc (take (chunk_size whole) whole) later tail))

-- What the loop of the reader makes of the chunks.
read_chunks-chunked :
    (fuel rounds : ℕ) (message rest buffer : Bytes) (total chunks : ℕ)
    → length message < fuel
    → length (chunked fuel message ++ (chunk_end ++ rest)) < rounds
    → 0 < chunks + length message
    → total ≤ max_message_size
    → read_chunks rounds buffer total chunks (chunked fuel message ++ (chunk_end ++ rest)) ≡ (
        if ltb max_message_size (total + length message)
        then err message_too_large
        else ok (buffer ++ message, rest))
read_chunks-chunked zero rounds message rest buffer total chunks h k some_chunk fits =
    absurd (omega arith)
read_chunks-chunked (suc fuel) zero message rest buffer total chunks h k some_chunk fits =
    absurd (omega arith)
read_chunks-chunked (suc fuel) (suc rounds) [] rest buffer total chunks h k some_chunk fits =
    unfold chunked in
    rw (append-nil buffer)
      (read_chunks-end rounds buffer total chunks rest (omega arith) ∙ ground arith)
read_chunks-chunked (suc fuel) (suc rounds) (c ∷ message) rest buffer total chunks h k some_chunk
      fits =
    let whole = c ∷ message in
    let size = chunk_size whole in
    let front = take size whole in
    let back = drop size whole in
    let tail = chunk_end ++ rest in
    let bounds = chunk_size_bounds whole (omega arith) in
    let split = chunked-suc fuel whole tail (omega arith) in
    let cut : size ≡ length front = omega (arith, length-take size whole, bounds.2) in
    let left : length back + size ≡ length whole =
      omega (arith, length-drop size whole, bounds.2) in
    let shorter : length (chunked fuel back ++ tail) < rounds = omega (
      arith,
      ap length split,
      length-append (chunk_header size) (front ++ (chunked fuel back ++ tail)),
      length-append front (chunked fuel back ++ tail),
      bounds.0,
    ) in
    let round =
      read_chunks-chunk rounds buffer total chunks size front (chunked fuel back ++ tail) cut
        bounds.0 bounds.1 in
    let joined : (buffer ++ front) ++ back ≡ buffer ++ whole =
      append_assoc buffer front back ∙ ap (◌++◌ buffer) (take-append-drop size whole) in
    elim (Bool-cases (ltb max_message_size (total + size))) [
      | inl over ↦ rw (split, round, over) (ground (arith, left))
      | inr within ↦
          let later =
            read_chunks-chunked fuel rounds back rest (buffer ++ front) (total + size) (chunks + 1)
              (omega (arith, left, bounds.0)) shorter (omega arith)
              (omega (arith, ltb→le max_message_size (total + size) within)) in
          rw (split, round, within, later, joined) (ground (arith, left))
    ]

write_chunked_message-chunked :
    (message : Bytes)
    → write_chunked_message append_sink [] message ≡ (
        if length message == 0
        then err no_chunk
        else ok (chunked (length message + 1) message ++ chunk_end))
unfolding write_chunked_message write
write_chunked_message-chunked message =
    rw (write_chunks-chunked (length message + 1) [] message (omega arith)) refl

read_chunked_message-chunked :
    (message rest : Bytes)
    → 0 < length message
    → read_chunked_message ((chunked (length message + 1) message ++ chunk_end) ++ rest) ≡ (
        if ltb max_message_size (length message) then err message_too_large else ok (message, rest))
unfolding read_chunked_message
read_chunked_message-chunked message rest h =
    let fuel = length message + 1 in
    rw (append_assoc (chunked fuel message) chunk_end rest) (
      read_chunks-chunked fuel (length (chunked fuel message ++ (chunk_end ++ rest)) + 1) message
        rest [] 0 0 (omega arith) (omega arith) (omega arith) (omega arith)
      ∙ ground arith)

-- What `WriteMessage` puts out in base:1.1 framing, `ReadMessage` gives back unchanged with the
-- bytes behind it unread, however it was cut into chunks; a message over the size limit, which the
-- writer accepts, the reader refuses.
pub read-write_chunked :
    (message rest : Bytes) {out : Bytes}
    → write_chunked_message append_sink [] message ≡ ok out
    → read_chunked_message (out ++ rest) ≡ (
        if ltb max_message_size (length message) then err message_too_large else ok (message, rest))
read-write_chunked message rest h =
    ground (arith, write_chunked_message-chunked message, read_chunked_message-chunked message rest)
