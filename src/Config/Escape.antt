-- ===== src/Config/Escape.antt =====
-- `EscapeValue` of pkg/config/serializer.go, and which tokens pkg/config/parser.go takes for a host name.
pub mod Strings
pub mod RoundTrip
mod Tests
use arca_router.Prelude.{
  ℕ, Bool, true, false, not, ◌&&◌, ◌||◌, List, [], ◌∷◌, ◌++◌, ◌==◌, if◌then◌else◌,
}
use arca_router.Config.Lexer.{Rune, Unicode, TokenType, is_word_char, string, word}

-- `strings.ReplaceAll` for a pattern of one rune.
unfoldable pub replace_all : Rune → List Rune → List Rune → List Rune
replace_all old new [] = []
replace_all old new (c ∷ text) =
    let rest = replace_all old new text in if c == old then new ++ rest else c ∷ rest

unfoldable pub escape_runes : List Rune → List Rune
escape_runes s =
    let backslashes = replace_all b'\\' (b'\\' ∷ b'\\' ∷ []) s in
    let newlines = replace_all b'\n' (b'\\' ∷ b'n' ∷ []) backslashes in
    let tabs = replace_all b'\t' (b'\\' ∷ b't' ∷ []) newlines in
    replace_all b'"' (b'\\' ∷ b'"' ∷ []) tabs

module _ (u : Unicode) where
  unfoldable pub needs_quoted_value : List Rune → Bool
  needs_quoted_value [] = false
  needs_quoted_value (c ∷ s) =
      (u.is_space c || c == b'"' || c == b'\'' || c == b'\\' || not (is_word_char u c))
      || needs_quoted_value s

  abbrev pub is_quoted : List Rune → Bool
  is_quoted [] = true
  is_quoted (c ∷ s) = needs_quoted_value (c ∷ s)

  unfoldable pub escape_value : List Rune → List Rune
  escape_value s = if is_quoted s then b'"' ∷ (escape_runes s ++ b'"' ∷ []) else s

-- The negated test of `parseSystem` on the token after `host-name`: the types a host name may have.
unfoldable pub accepts_value : TokenType → Bool
accepts_value word = true
accepts_value string = true
accepts_value _ = false
