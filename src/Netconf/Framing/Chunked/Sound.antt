-- ===== src/Netconf/Framing/Chunked/Sound.antt =====
-- The base:1.1 reader over any input: its loop ends, and what it returns is within the limits.
use arca_router.Prelude.{
  ℕ, zero, suc, ◌+◌, ◌-◌, ◌*◌, ◌≤◌, ◌<◌, [], ◌∷◌, ◌++◌, Result, ok, err, ◌>>=◌, ◌≡◌, ◌≢◌, refl,
  arith, ◌==◌, Bool-cases, inl, inr, length, length-append, length-take, length-drop, Bytes,
  bytes_eq,
}
use arca_router.Netconf.Framing.{
  FramingError, out_of_fuel, max_message_size, max_chunk_header_length, chunk_end_line, decimal,
  parse_chunk_size, check_sizes, chunk_size_of, is_bad_header, strip_header, read_byte,
  read_chunk_separator, read_bounded_line, read_full, read_chunks, read_chunked_message, Read,
}

-- What holds of a value that is returned; an error is one of the code's own.
abbrev pub Ensures : {A : Type 0} → (A → Type 0) → Result FramingError A → Type 0
Ensures P (ok a) = P a
Ensures P (err e) = e ≢ out_of_fuel

Ensures-bind :
    {A B : Type 0} (P : A → Type 0) (Q : B → Type 0) (r : Result FramingError A)
    (f : A → Result FramingError B)
    → Ensures P r
    → ((a : A) → P a → Ensures Q (f a))
    → Ensures Q (r >>= f)
Ensures-bind P Q (ok a) f h k = k a h
Ensures-bind P Q (err e) f h k = h

-- A step of the reader leaves fewer bytes than it found.
abbrev Shorter : {A : Type 0} → Bytes → A × Bytes → Type 0
Shorter input r = length r.1 < length input

read_chunk_separator-Ensures :
    (input : Bytes) → Ensures (Shorter input) (read_chunk_separator input)
unfolding read_chunk_separator read_byte
read_chunk_separator-Ensures [] = λ e. cc
read_chunk_separator-Ensures (b ∷ bs) = ground arith

read_bounded_line-Ensures :
    (n : ℕ) (line input : Bytes) → Ensures (Shorter input) (read_bounded_line n line input)
unfolding read_bounded_line
read_bounded_line-Ensures zero line input = λ e. cc
read_bounded_line-Ensures (suc n) line [] = λ e. cc
read_bounded_line-Ensures (suc n) line (b ∷ bs) = elim (Bool-cases (b == b'\n')) [
  | inl e ↦ rw e (omega arith)
  | inr e ↦ rw e (
      weaken (read_bounded_line n (line ++ b ∷ []) bs)
        (read_bounded_line-Ensures n (line ++ b ∷ []) bs))
]
  where
    weaken : (r : Read Bytes) → Ensures (Shorter bs) r → Ensures (Shorter (b ∷ bs)) r
    weaken (ok a) h = omega arith
    weaken (err e) h = h

le-decimal : (cs : Bytes) (acc : ℕ) → acc ≤ decimal acc cs
unfolding decimal
le-decimal [] acc = omega arith
le-decimal (c ∷ cs) acc = omega (arith, le-decimal cs (acc * 10 + (c - b'0')))

parse_chunk_size-Ensures : (text : Bytes) → Ensures (λ n. 0 < n) (parse_chunk_size text)
unfolding parse_chunk_size decimal
parse_chunk_size-Ensures [] = λ e. cc
parse_chunk_size-Ensures (c ∷ cs) = ground (arith, le-decimal cs (0 * 10 + (c - b'0')))

-- A size that is accepted is positive and keeps the total within the limit.
abbrev Accepted : ℕ → ℕ → Type 0
Accepted total size = (0 < size) × (total + size ≤ max_message_size)

check_sizes-Ensures :
    (total size : ℕ) → 0 < size → Ensures (Accepted total) (check_sizes total size)
unfolding check_sizes
check_sizes-Ensures total size h = ground arith

chunk_size_of-Ensures :
    (total : ℕ) (line : Bytes) → Ensures (Accepted total) (chunk_size_of total line)
unfolding chunk_size_of
chunk_size_of-Ensures total line = elim (Bool-cases (is_bad_header line)) [
  | inl bad ↦ rw bad (λ e. cc)
  | inr good ↦ rw good (
      Ensures-bind (λ n. 0 < n) (Accepted total) (parse_chunk_size (strip_header line))
        (check_sizes total) (parse_chunk_size-Ensures (strip_header line))
        (check_sizes-Ensures total))
]

abbrev Taken : ℕ → Bytes → Bytes × Bytes → Type 0
Taken n input r = (length r.0 ≡ n) × (length r.0 + length r.1 ≡ length input)

read_full-Ensures : (n : ℕ) (input : Bytes) → Ensures (Taken n input) (read_full n input)
unfolding read_full
read_full-Ensures n input = ground (arith, length-take n input, length-drop n input)

-- The message lies within the limit, is not empty, and its bytes and the unread ones are fewer
-- than the bytes at hand.
abbrev pub Within : ℕ → ℕ → Bytes × Bytes → Type 0
Within total available r =
    (0 < length r.0)
    × (length r.0 ≤ max_message_size)
    × (length r.0 + length r.1 < total + available)

Within-weaken :
    (total total' left available : ℕ) (r : Read Bytes)
    → Ensures (Within total' left) r
    → total' + left ≤ total + available
    → Ensures (Within total available) r
Within-weaken total total' left available (ok a) h k = omega arith
Within-weaken total total' left available (err e) h k = h

read_chunks-Ensures :
    (fuel : ℕ) (buffer : Bytes) (total chunks : ℕ) (input : Bytes)
    → length input < fuel
    → length buffer ≡ total
    → total ≤ max_message_size
    → (0 < chunks → 0 < total)
    → Ensures (Within total (length input)) (read_chunks fuel buffer total chunks input)
unfolding read_chunks
read_chunks-Ensures zero buffer total chunks input h b t c = absurd (omega arith)
read_chunks-Ensures (suc fuel) buffer total chunks input h b t c =
    let Goal = Within total (length input) in
    Ensures-bind (Shorter input) Goal (read_chunk_separator input) _
      (read_chunk_separator-Ensures input)
      λ (_, after) s.
        Ensures-bind (Shorter after) Goal (read_bounded_line max_chunk_header_length [] after) _
          (read_bounded_line-Ensures max_chunk_header_length [] after)
          λ (line, rest) l. elim (Bool-cases (bytes_eq line chunk_end_line)) [
            | inl at_end ↦ rw at_end (ground arith)
            | inr in_chunk ↦ rw in_chunk (
                Ensures-bind (Accepted total) Goal (chunk_size_of total line) _
                  (chunk_size_of-Ensures total line)
                  λ size ok_size.
                    Ensures-bind (Taken size rest) Goal (read_full size rest) _
                      (read_full-Ensures size rest)
                      λ (chunk, left) taken.
                        Within-weaken total (total + size) (length left) (length input) _
                          (read_chunks-Ensures fuel (buffer ++ chunk) (total + size) (chunks + 1)
                            left (omega arith) (omega (arith, length-append buffer chunk))
                            (omega arith) (λ _. omega arith))
                          (omega arith))
          ]

-- The reader of base:1.1 messages never runs out of the rounds that its input allows, so each call
-- returns a message or an error of the code. A message is not empty, is within the size limit, and
-- with what is left unread shorter than the input.
pub read_chunked_message-Ensures :
    (input : Bytes) → Ensures (Within 0 (length input)) (read_chunked_message input)
unfolding read_chunked_message
read_chunked_message-Ensures input =
    read_chunks-Ensures (length input + 1) [] 0 0 input (omega arith) refl (omega arith)
      (λ h. absurd (omega arith))
