-- ===== src/Config/Lexer.antt =====
-- pkg/config/lexer.go and token.go. The text is a list of runes. What package unicode says of a rune
-- is the interface `Unicode`. Messages of error tokens are kept as they are, without the character.
pub mod Stream
pub mod Progress
use arca_router.Prelude.{
  ℕ, zero, suc, ◌+◌, Bool, true, false, not, ◌&&◌, ◌||◌, List, [], ◌∷◌, ◌++◌, Option, none, some,
  ◌≡◌, ◌==◌, if◌then◌else◌, length, bytes_eq, codes, Bytes,
}

abbrev pub Rune : Type 0
Rune = ℕ

-- `unicode.IsSpace`, `unicode.IsLetter` and `unicode.IsDigit`, with what the code relies on: a new
-- line is a space, and the quotation mark, the number sign and the spaces stand in no word.
pub record Unicode : Type 0 where
  pub is_space : Rune → Bool
  pub is_letter : Rune → Bool
  pub is_digit : Rune → Bool
  pub newline_is_space : is_space b'\n' ≡ true
  pub quote_is_no_space : is_space b'"' ≡ false
  pub quote_is_no_letter : is_letter b'"' ≡ false
  pub quote_is_no_digit : is_digit b'"' ≡ false
  pub hash_is_no_letter : is_letter b'#' ≡ false
  pub hash_is_no_digit : is_digit b'#' ≡ false

pub data TokenType : Type 0 where
  eof eol set word string number error out_of_fuel : TokenType

pub record Token : Type 0 where
  pub kind : TokenType
  pub value : List Rune
  pub line : ℕ
  pub column : ℕ

-- `reader` holds the runes after `ch`, the current one.
pub record Lexer : Type 0 where
  pub reader : List Rune
  pub line : ℕ
  pub column : ℕ
  pub ch : Rune
  pub at_eof : Bool

unfoldable pub read_char : Lexer → Lexer
read_char l = elim l.reader [
  | [] ↦ record l { at_eof = true; ch = 0 }
  | c ∷ rest ↦
      if c == b'\n'
      then record l { reader = rest; ch = c; line = l.line + 1; column = 0 }
      else record l { reader = rest; ch = c; column = l.column + 1 }
]

unfoldable pub new_lexer : List Rune → Lexer
unfolding read_char
new_lexer text = read_char (record { reader = text; line = 1; column = 0; ch = 0; at_eof = false })

-- The rounds that are enough for any loop: each reads a rune.
abbrev pub rounds : Lexer → ℕ
rounds l = suc (suc (length l.reader))

unfoldable pub skip_while : ℕ → (Rune → Bool) → Lexer → Lexer
skip_while zero test l = l
skip_while (suc fuel) test l =
    let rest = skip_while fuel test (read_char l) in if not l.at_eof && test l.ch then rest else l

unfoldable pub read_while : ℕ → (Rune → Bool) → List Rune → Lexer → List Rune × Lexer
read_while zero test read l = (read, l)
read_while (suc fuel) test read l =
    let rest = read_while fuel test (read ++ l.ch ∷ []) (read_char l) in
    if not l.at_eof && test l.ch then rest else (read, l)

-- `skipLine`
unfoldable pub skip_line : Lexer → Lexer
skip_line l =
    let end = skip_while (rounds l) (λ c. not (c == b'\n')) l in
    if end.ch == b'\n' then read_char end else end

abbrev pub token_at : Lexer → TokenType → List Rune → Token
token_at l kind value = record { kind = kind; value = value; line = l.line; column = l.column }

-- The rune that an escape stands for.
unfoldable pub unescape : Rune → Rune
unescape c = if c == b'n' then b'\n' else if c == b't' then b'\t' else c

-- One round of `readString`: the rune that it writes, or `none` at the end of the input after a
-- backslash.
unfoldable pub read_string_char : Lexer → Option (Rune × Lexer)
unfolding unescape
read_string_char l =
    let escaped = read_char l in
    if l.ch == b'\\'
    then if escaped.at_eof then none else some (unescape escaped.ch, read_char escaped)
    else some (l.ch, read_char l)

-- The loop of `readString` and what follows it; `start` has the place of the token.
unfoldable pub read_string_from : ℕ → Lexer → List Rune → Lexer → Token × Lexer
read_string_from zero start read l = (token_at start out_of_fuel [], l)
read_string_from (suc fuel) start read l =
    let next : Token × Lexer = elim (read_string_char l) [
      | none ↦ (token_at start error (codes "unexpected EOF in string"), read_char l)
      | some (c, l') ↦ read_string_from fuel start (read ++ c ∷ []) l'
    ] in
    if l.at_eof
    then (token_at start error (codes "unterminated string"), l)
    else if l.ch == b'"'
    then (token_at start string read, read_char l)
    else next

unfoldable pub read_string : Lexer → Token × Lexer
read_string l = read_string_from (rounds l) l [] (read_char l)

module _ (u : Unicode) where
  unfoldable pub is_word_char : Rune → Bool
  is_word_char c =
      u.is_letter c || u.is_digit c || c == b'-' || c == b'_' || c == b'/' || c == b'.' || c == b':'

  unfoldable pub all_digit : List Rune → Bool
  all_digit [] = true
  all_digit (c ∷ cs) = u.is_digit c && all_digit cs

  unfoldable pub is_number : List Rune → Bool
  is_number [] = false
  is_number (c ∷ cs) = all_digit (c ∷ cs)

  -- The type of a token that is no quoted string.
  abbrev pub word_type : List Rune → TokenType
  word_type value =
      if bytes_eq value (codes "set") then set else if is_number value then number else word

  unfoldable pub read_word : Lexer → Token × Lexer
  read_word l =
      let (value, rest) = read_while (rounds l) is_word_char [] l in
      (token_at l (word_type value) value, rest)

  abbrev pub is_blank : Rune → Bool
  is_blank c = u.is_space c && not (c == b'\n')

  unfoldable pub skip_whitespace : Lexer → Lexer
  skip_whitespace l = skip_while (rounds l) is_blank l

  -- `NextToken`; the fuel counts the comments that it may pass.
  unfoldable pub next_token_from : ℕ → Lexer → Token × Lexer
  next_token_from zero l = (token_at l out_of_fuel [], l)
  next_token_from (suc fuel) l =
      let here = skip_whitespace l in
      let after_comment = next_token_from fuel (skip_line here) in
      if here.at_eof
      then (token_at here eof [], here)
      else if here.ch == b'\n'
      then (token_at here eol [], read_char here)
      else if here.ch == b'#'
      then after_comment
      else if here.ch == b'"'
      then read_string here
      else if is_word_char here.ch
      then read_word here
      else (token_at here error (codes "unexpected character"), read_char here)

  unfoldable pub next_token : Lexer → Token × Lexer
  next_token l = next_token_from (rounds l) l
