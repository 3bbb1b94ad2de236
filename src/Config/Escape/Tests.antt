-- ===== src/Config/Escape/Tests.antt =====
-- The lexer and `EscapeValue` at inputs of ASCII text.
use arca_router.Prelude.{Bool, false, ◌||◌, ◌&&◌, leb, List, ◌⊎◌, ◌↔◌, ◌++◌, ◌≡◌, refl, ◌==◌, codes}
use arca_router.Config.Lexer.{Rune, Unicode, Lexer, string, new_lexer, next_token, is_word_char}
use arca_router.Config.Lexer.Stream.{stream, All}
use arca_router.Config.Lexer.Progress.{Ahead, next_token-Ahead}
use arca_router.Config.Escape.{
  escape_value, is_quoted, escape_runes, replace_all, needs_quoted_value, accepts_value,
}
use arca_router.Config.Escape.RoundTrip.{next_token-escape_value, accepts_value-next_token}

abbrev between : Rune → Rune → Rune → Bool
between first last c = leb first c && leb c last

-- The ASCII part of package unicode.
abbrev ascii : Unicode
ascii = record {
  is_space = λ c. c == b' ' || between b'\t' b'\r' c;
  is_letter = λ c. between b'a' b'z' c || between b'A' b'Z' c;
  is_digit = between b'0' b'9';
  newline_is_space = refl;
  quote_is_no_space = refl;
  quote_is_no_letter = refl;
  quote_is_no_digit = refl;
  hash_is_no_letter = refl;
  hash_is_no_digit = refl;
}

abbrev community : List Rune
community = codes "lab \"core\""

abbrev community_text : Lexer
unfolding new_lexer
community_text = new_lexer (codes " " ++ (escape_value ascii community ++ codes " authorization"))

-- A comment, a statement and a string that is not closed.
abbrev commented : Lexer
unfolding new_lexer
commented = new_lexer (codes "# comment\nset \"unclosed")

next_token-Ahead_example : Ahead 23 (next_token ascii commented)
unfolding commented
next_token-Ahead_example = next_token-Ahead ascii commented

next_token-escape_value_example :
    let (token, l') = next_token ascii community_text in
    (token.value ≡ community) × (token.kind ≡ string) × (stream l' ≡ codes " authorization")
unfolding needs_quoted_value is_word_char escape_value escape_runes replace_all community_text
next_token-escape_value_example =
    next_token-escape_value ascii community (codes " ") (codes " authorization") community_text refl
      (refl, tt) refl

abbrev numeric_text : Lexer
unfolding new_lexer
numeric_text = new_lexer (codes " 123\n")

accepts_value-next_token_example :
    (accepts_value (next_token ascii numeric_text).0.kind ≡ false) ↔ (
      (is_quoted ascii (codes "123") ≡ false)
      × ((codes "123" ≡ codes "set") ⊎ All ascii.is_digit (codes "123")))
unfolding needs_quoted_value is_word_char escape_value numeric_text
accepts_value-next_token_example =
    accepts_value-next_token ascii (codes "123") (codes " ") (codes "\n") numeric_text refl
      (refl, tt) refl
