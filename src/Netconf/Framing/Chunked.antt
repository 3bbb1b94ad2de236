-- ===== src/Netconf/Framing/Chunked.antt =====
-- base:1.1 framing: one round of the reader's loop over what one round of the writer's loop wrote.
pub mod RoundTrip
pub mod Sound
use arca_router.Prelude.{
  ℕ, zero, suc, ◌+◌, ◌-◌, ◌*◌, ◌^◌, ◌≤◌, ◌<◌, Bool, true, false, ◌&&◌, ◌||◌, not, List, [], ◌∷◌,
  ◌++◌, Result, ok, err, ◌>>=◌, ◌≡◌, ◌≢◌, refl, sym, ◌∙◌, ap, arith, ltb, ◌==◌, if◌then◌else◌,
  le→ltb, Bool-cases, inl, inr, length, take, drop, length-append, take-append, drop-append,
  append-nil, append_assoc, Bytes, bytes_eq, bytes_eq_iff,
}
use arca_router.Netconf.Framing.{
  FramingError, message_too_large, chunk_too_large, bad_header, max_int64, max_message_size,
  max_chunk_size, max_chunk_header_length, chunk_end, chunk_end_line, read_byte, all_digits,
  read_full, read_bounded_line, strip_header, is_bad_header, check_sizes, chunk_size_of,
  read_chunk_separator, parse_chunk_size, read_chunks, chunk_header, digits, Read,
}
use arca_router.Netconf.Framing.Decimal.{
  all_digits-digits, length-digits, Leads, digits-Leads, parse_chunk_size-digits,
}

read_bounded_line-digits :
    (s rest line : Bytes) (n : ℕ)
    → all_digits s ≡ true
    → length s < n
    → read_bounded_line n line (s ++ (b'\n' ∷ rest)) ≡ ok (line ++ (s ++ b'\n' ∷ []), rest)
unfolding read_bounded_line all_digits
read_bounded_line-digits s rest line zero h fits = absurd (omega arith)
read_bounded_line-digits [] rest line (suc n) h fits = refl
read_bounded_line-digits (c ∷ s) rest line (suc n) h fits = ground (
  arith,
  read_bounded_line-digits s rest (line ++ c ∷ []) n,
  append_assoc line (c ∷ []) (s ++ b'\n' ∷ []),
)

-- The header line of `size` bytes, without the newline in front of it.
abbrev header_line : ℕ → Bytes
header_line size = b'#' ∷ (digits (suc size) size ++ b'\n' ∷ [])

read_bounded_line-header :
    (size : ℕ) (rest : Bytes)
    → size ≤ max_chunk_size
    → read_bounded_line max_chunk_header_length []
        (b'#' ∷ (digits (suc size) size ++ (b'\n' ∷ rest)))
      ≡ ok (header_line size, rest)
read_bounded_line-header size rest h =
    let short = length-digits 4 (suc size) size (omega arith) (omega arith) in
    unfold read_bounded_line in
    read_bounded_line-digits (digits (suc size) size) rest (b'#' ∷ []) 63
      (all_digits-digits (suc size) size) (omega arith)

module _ (size : ℕ) (pos : 0 < size) where
  lead : Leads (digits (suc size) size)
  lead = digits-Leads (suc size) size pos (omega arith)

  length-header_line : length (header_line size) ≡ length (digits (suc size) size) + 2
  length-header_line = omega (arith, length-append (digits (suc size) size) (b'\n' ∷ []))

  length-digits_pos : 0 < length (digits (suc size) size)
  length-digits_pos = rw lead.split (omega arith)

  header_line-ne-end : bytes_eq (header_line size) chunk_end_line ≡ false
  unfolding bytes_eq
  header_line-ne-end = let low = lead.above in rw lead.split (ground arith)

  not-is_bad_header : is_bad_header (header_line size) ≡ false
  unfolding is_bad_header
  not-is_bad_header =
      let front = b'#' ∷ digits (suc size) size in
      let cut =
        drop-append (length (header_line size) - 1) front (b'\n' ∷ [])
          (omega (arith, length-header_line)) in
      rw (cut, length-header_line) (ground (arith, length-digits_pos))

  strip_header-header_line : strip_header (header_line size) ≡ digits (suc size) size
  unfolding strip_header
  strip_header-header_line =
      take-append (length (header_line size) - 2) (digits (suc size) size) (b'\n' ∷ [])
        (omega (arith, length-header_line))

  chunk_size_of-header_line :
      (total : ℕ)
      → size ≤ max_chunk_size
      → chunk_size_of total (header_line size)
        ≡ (if ltb max_message_size (total + size) then err message_too_large else ok size)
  unfolding chunk_size_of check_sizes
  chunk_size_of-header_line total h =
      rw
        (
          not-is_bad_header,
          strip_header-header_line,
          parse_chunk_size-digits size pos (omega arith),
          le→ltb max_message_size size (omega arith),
        )
        refl

read_full-append :
    (n : ℕ) (chunk rest : Bytes) → n ≡ length chunk → read_full n (chunk ++ rest) ≡ ok (chunk, rest)
unfolding read_full
read_full-append n chunk rest e =
    rw
      (
        take-append n chunk rest e,
        drop-append n chunk rest e,
        le→ltb (length (chunk ++ rest)) n (omega (arith, length-append chunk rest)),
      )
      refl

read_chunks_round :
    (fuel : ℕ) (buffer : Bytes) (total chunks size : ℕ) (input line after chunk rest : Bytes)
    → read_bounded_line max_chunk_header_length [] input ≡ ok (line, after)
    → bytes_eq line chunk_end_line ≡ false
    → chunk_size_of total line
      ≡ (if ltb max_message_size (total + size) then err message_too_large else ok size)
    → read_full size after ≡ ok (chunk, rest)
    → read_chunks (suc fuel) buffer total chunks (b'\n' ∷ input) ≡ (
        if ltb max_message_size (total + size)
        then err message_too_large
        else read_chunks fuel (buffer ++ chunk) (total + size) (chunks + 1) rest)
unfolding read_chunks read_chunk_separator read_byte
read_chunks_round fuel buffer total chunks size input line after chunk rest l e s f =
    elim (Bool-cases (ltb max_message_size (total + size))) [
      | inl over ↦ rw (l, e, s, over) refl
      | inr within ↦ rw (l, e, s, within, f) refl
    ]

-- One round over a chunk of the writer.
pub read_chunks-chunk :
    (fuel : ℕ) (buffer : Bytes) (total chunks size : ℕ) (chunk rest : Bytes)
    → size ≡ length chunk
    → 0 < size
    → size ≤ max_chunk_size
    → read_chunks (suc fuel) buffer total chunks (chunk_header size ++ (chunk ++ rest)) ≡ (
        if ltb max_message_size (total + size)
        then err message_too_large
        else read_chunks fuel (buffer ++ chunk) (total + size) (chunks + 1) rest)
unfolding chunk_header
read_chunks-chunk fuel buffer total chunks size chunk rest e pos h =
    rw (append_assoc (digits (suc size) size) (b'\n' ∷ []) (chunk ++ rest)) (
      read_chunks_round fuel buffer total chunks size _ (header_line size) (chunk ++ rest) chunk
        rest (read_bounded_line-header size (chunk ++ rest) h) (header_line-ne-end size pos)
        (chunk_size_of-header_line size pos total h) (read_full-append size chunk rest e))

pub read_chunks-end :
    (fuel : ℕ) (buffer : Bytes) (total chunks : ℕ) (rest : Bytes)
    → 0 < chunks
    → read_chunks (suc fuel) buffer total chunks (chunk_end ++ rest) ≡ ok (buffer, rest)
unfolding read_chunks read_chunk_separator read_byte read_bounded_line bytes_eq
read_chunks-end fuel buffer total chunks rest h = ground arith
