-- ===== src/Netconf/Framing.antt =====
-- pkg/netconf/framing.go: the readers and writers of NETCONF messages in both framings.
-- A `bufio.Reader` is the list of the bytes that are still to come; after an error the session is
-- closed, so the position of the reader is kept on success only. A sink is any state with a
-- function that writes bytes to it or fails.
pub mod Decimal
pub mod Chunked
pub mod Eom
mod Tests
use arca_router.Prelude.{
  ℕ, zero, suc, ◌+◌, ◌-◌, ◌*◌, ◌/◌, ◌%◌, ◌^◌, Bool, true, false, ◌&&◌, ◌||◌, not, List, [], ◌∷◌,
  ◌++◌, Option, none, some, String, Result, ok, err, ◌>>=◌, or_fail, ltb, ◌==◌, if◌then◌else◌,
  length, take, drop, Bytes, bytes_eq, codes,
}
use text.Mathlib.Text.{◌==◌ as str_eq}

abbrev pub max_chunk_size : ℕ
max_chunk_size = 4096

abbrev pub max_message_size : ℕ
max_message_size = 16 * 1024 * 1024

abbrev pub max_chunk_header_length : ℕ
max_chunk_header_length = 64

abbrev pub eom_marker : Bytes
eom_marker = codes "]]>]]>"

abbrev pub chunk_end : Bytes
chunk_end = codes "\n##\n"

abbrev pub chunk_end_line : Bytes
chunk_end_line = codes "##\n"

-- One constructor for each error that the code returns. `out_of_fuel` is the model's own.
pub data FramingError : Type 0 where
  not_initialized end_of_input line_too_long bad_separator no_chunk : FramingError
  bad_header bad_chunk_size chunk_size_overflow chunk_too_large message_too_large : FramingError
  contains_marker write_failed out_of_fuel : FramingError

abbrev pub Read : Type 0 → Type 0
Read A = Result FramingError (A × Bytes)

pub read_byte : Bytes → Read ℕ
read_byte [] = err end_of_input
read_byte (b ∷ bs) = ok (b, bs)

-- `io.ReadFull` into a slice of `n` bytes.
pub read_full : ℕ → Bytes → Read Bytes
read_full n input =
    if ltb (length input) n then err end_of_input else ok (take n input, drop n input)

-- The first argument counts the rounds that are left, the second is the line so far.
pub read_bounded_line : ℕ → Bytes → Bytes → Read Bytes
read_bounded_line zero line input = err line_too_long
read_bounded_line (suc n) line [] = err end_of_input
read_bounded_line (suc n) line (b ∷ bs) =
    let rest = read_bounded_line n (line ++ b ∷ []) bs in
    if b == b'\n' then ok (line ++ b ∷ [], bs) else rest

pub all_digits : Bytes → Bool
all_digits [] = true
all_digits (c ∷ cs) = (not (ltb c b'0') && not (ltb b'9' c)) && all_digits cs

-- The value that `strconv.ParseInt` computes for a text of digits.
pub decimal : ℕ → Bytes → ℕ
decimal acc [] = acc
decimal acc (c ∷ cs) = decimal (acc * 10 + (c - b'0')) cs

abbrev pub max_int64 : ℕ
max_int64 = 2 ^ 63 - 1

pub parse_chunk_size : Bytes → Result FramingError ℕ
parse_chunk_size [] = err bad_chunk_size
parse_chunk_size (c ∷ cs) =
    if ltb c b'1' || ltb b'9' c
    then err bad_chunk_size
    else if not (all_digits cs)
    then err bad_chunk_size
    else if ltb max_int64 (decimal 0 (c ∷ cs))
    then err chunk_size_overflow
    else ok (decimal 0 (c ∷ cs))

pub read_chunk_separator : Bytes → Read (Unit {0})
unfolding read_byte
read_chunk_separator input = do
  (b, rest) ← read_byte input
  if b == b'\n' then ok (tt, rest) else err bad_separator

-- `line[1 : len(line)-1]`
pub strip_header : Bytes → Bytes
strip_header line = take (length line - 2) (drop 1 line)

-- `len(line) < 3 || line[0] != '#' || line[len(line)-1] != '\n'`
pub is_bad_header : Bytes → Bool
unfolding bytes_eq
is_bad_header line =
    ltb (length line) 3
    || not (bytes_eq (take 1 line) (b'#' ∷ []))
    || not (bytes_eq (drop (length line - 1) line) (b'\n' ∷ []))

-- Both size checks; `total` is `totalSize` before the chunk is added.
pub check_sizes : ℕ → ℕ → Result FramingError ℕ
check_sizes total size =
    if ltb max_message_size size
    then err chunk_too_large
    else if ltb max_message_size (total + size)
    then err message_too_large
    else ok size

-- The size that a header line announces, once it is accepted.
pub chunk_size_of : ℕ → Bytes → Result FramingError ℕ
chunk_size_of total line =
    if is_bad_header line
    then err bad_header
    else do size ← parse_chunk_size (strip_header line); check_sizes total size

-- The loop of `readChunkedMessage` over `buffer`, `totalSize` and `chunksRead`.
pub read_chunks : ℕ → Bytes → ℕ → ℕ → Bytes → Read Bytes
read_chunks zero buffer total chunks input = err out_of_fuel
read_chunks (suc fuel) buffer total chunks input = do
  (_, after_separator) ← read_chunk_separator input
  (line, after_line) ← read_bounded_line max_chunk_header_length [] after_separator
  let data_chunk = do
    size ← chunk_size_of total line
    (chunk, rest) ← read_full size after_line
    read_chunks fuel (buffer ++ chunk) (total + size) (chunks + 1) rest
  let end_of_chunks = if chunks == 0 then err no_chunk else ok (buffer, after_line)
  if bytes_eq line chunk_end_line then end_of_chunks else data_chunk

pub read_chunked_message : Bytes → Read Bytes
read_chunked_message input = read_chunks (length input + 1) [] 0 0 input

-- `fr.buffer.Bytes()[fr.buffer.Len()-len(EOMMarker):]` compared with the marker.
pub has_suffix : Bytes → Bytes → Bool
unfolding bytes_eq
has_suffix suffix buffer =
    not (ltb (length buffer) (length suffix))
    && bytes_eq (drop (length buffer - length suffix) buffer) suffix

-- The loop of `readEOMMessage` over `buffer` and `totalSize`.
pub read_eom : Bytes → ℕ → Bytes → Read Bytes
unfolding has_suffix
read_eom buffer total [] = err end_of_input
read_eom buffer total (b ∷ bs) =
    let buffer' = buffer ++ b ∷ [] in
    let rest = read_eom buffer' (total + 1) bs in
    if ltb max_message_size (total + 1)
    then err message_too_large
    else if has_suffix eom_marker buffer'
    then ok (take (length buffer' - length eom_marker) buffer', bs)
    else rest

pub read_eom_message : Bytes → Read Bytes
unfolding read_eom
read_eom_message input = read_eom [] 0 input

-- A nil `reader` field is `none`.
pub record FramingReader : Type 0 where
  pub reader : Option Bytes
  pub base_version : String

-- A nil receiver is `none`. The result carries the reader as the call leaves it.
pub read_message : Option FramingReader → Result FramingError (Bytes × FramingReader)
unfolding read_chunked_message read_eom_message
read_message none = err not_initialized
read_message (some fr) = do
  input ← or_fail fr.reader not_initialized
  (message, rest) ←
      if str_eq fr.base_version "1.1" then read_chunked_message input else read_eom_message input
  ok (message, record fr { reader = some rest })

pub set_base_version : Option FramingReader → String → Option FramingReader
set_base_version none version = none
set_base_version (some fr) version = some (record fr { base_version = version })

-- `%d` of a natural number; the fuel is the number itself.
pub digits : ℕ → ℕ → Bytes
digits zero n = []
digits (suc fuel) n =
    let front = digits fuel (n / 10) in
    if ltb n 10 then (b'0' + n) ∷ [] else front ++ (b'0' + n % 10) ∷ []

-- `fmt.Sprintf("\n#%d\n", chunkSize)`
pub chunk_header : ℕ → Bytes
chunk_header size = b'\n' ∷ b'#' ∷ (digits (suc size) size ++ b'\n' ∷ [])

-- `bytes.Contains`
pub starts_with : Bytes → Bytes → Bool
starts_with [] text = true
starts_with (x ∷ xs) [] = false
starts_with (x ∷ xs) (y ∷ ys) = x == y && starts_with xs ys

pub contains : Bytes → Bytes → Bool
unfolding starts_with
contains sub [] = starts_with sub []
contains sub (x ∷ xs) = starts_with sub (x ∷ xs) || contains sub xs

module _ {W : Type 0} (put : W → Bytes → Option W) where
  pub write : W → Bytes → Result FramingError W
  write w bytes = or_fail (put w bytes) write_failed

  -- The loop of `writeChunkedMessage` over `data[offset:]`, whose length is `remaining`.
  pub write_chunks : ℕ → W → Bytes → Result FramingError W
  unfolding write
  write_chunks zero w rest = err out_of_fuel
  write_chunks (suc fuel) w rest =
      let size = if ltb max_chunk_size (length rest) then max_chunk_size else length rest in
      let round = (do
        headed ← write w (chunk_header size)
        written ← write headed (take size rest)
        write_chunks fuel written (drop size rest)) in
      if length rest == 0 then ok w else round

  pub write_chunked_message : W → Bytes → Result FramingError W
  write_chunked_message w message =
      if length message == 0
      then err no_chunk
      else do written ← write_chunks (length message + 1) w message; write written chunk_end

  pub write_eom_message : W → Bytes → Result FramingError W
  unfolding contains write
  write_eom_message w message =
      if contains eom_marker message
      then err contains_marker
      else do written ← write w message; write written eom_marker

  -- The writer's fields `writer` and `baseVersion`; a nil writer is `none`.
  pub write_message : Option W → String → Bytes → Result FramingError W
  unfolding write_chunked_message write_eom_message
  write_message none version message = err not_initialized
  write_message (some w) version message =
      if str_eq version "1.1" then write_chunked_message w message else write_eom_message w message
