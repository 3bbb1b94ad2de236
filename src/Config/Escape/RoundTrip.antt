-- ===== src/Config/Escape/RoundTrip.antt =====
-- Values written by `EscapeValue` of pkg/config/serializer.go under the lexer.
use arca_router.Prelude.{
  true, false, ◌||◌, List, [], ◌∷◌, ◌++◌, ◌≡◌, refl, arith, ◌==◌, length, if◌then◌else◌, if-intro,
  if-covered, Bool-cases, inl, inr, append_assoc, length-append, sym, ap, subst, ◌∙◌, bytes_eq,
  bytes_eq_iff, codes, ◌⊎◌, ◌↔◌,
}
use arca_router.Config.Lexer.{
  Rune, Unicode, TokenType, Token, Lexer, string, read_char, rounds, read_string, read_word,
  skip_whitespace, next_token_from, next_token, is_word_char, word_type, is_blank, is_number,
  all_digit,
}
use arca_router.Config.Lexer.Stream.{
  stream, stream-read_char, Stops, All, stream-skip_while, read_while_run,
}
use arca_router.Config.Escape.{
  escape_runes, needs_quoted_value, is_quoted, escape_value, accepts_value,
}
use arca_router.Config.Escape.Strings.{
  read_string_from-escape_runes, length-escape_runes, length-stream,
}

module _ (u : Unicode) where
  -- The token and the stream after it.
  abbrev Reads : Token × Lexer → TokenType → List Rune → List Rune → Type 0
  Reads (token, l) kind value rest = (token.kind ≡ kind) × (token.value ≡ value) × (stream l ≡ rest)

  read_string-Reads :
      (s rest : List Rune) (l : Lexer)
      → stream l ≡ b'"' ∷ escape_runes s ++ b'"' ∷ rest
      → Reads (read_string l) string s rest
  unfolding read_string
  read_string-Reads s rest l h =
      let r = stream-read_char l h in
      let long = length-stream l in
      let size = ap length h in
      let spread = length-append (escape_runes s) (b'"' ∷ rest) in
      let (t, after) =
        read_string_from-escape_runes (rounds l) l [] s rest (read_char l)
          (omega (arith, long, size, spread, length-escape_runes s)) r.2 in
      (ap (λ (x : Token). x.kind) t, ap (λ (x : Token). x.value) t, after)

  read_word-Reads :
      (s rest : List Rune) (l : Lexer)
      → stream l ≡ s ++ rest
      → All (is_word_char u) s
      → Stops (is_word_char u) rest
      → Reads (read_word u l) (word_type u s) s rest
  unfolding read_word
  read_word-Reads s rest l h all stop =
      let long = length-stream l in
      let r =
        read_while_run (rounds l) (is_word_char u) [] s rest l
          (omega (arith, long, ap length h, length-append s rest)) h all stop in
      (ap (word_type u) r.0, r.0, r.1)

  word_chars : (s : List Rune) → needs_quoted_value u s ≡ false → All (is_word_char u) s
  unfolding needs_quoted_value
  word_chars [] h = tt
  word_chars (c ∷ s) h = (ground (arith, h), word_chars s (ground (arith, h)))

  skip_whitespace-stream :
      (blanks rest : List Rune) (l : Lexer)
      → stream l ≡ blanks ++ rest
      → All (is_blank u) blanks
      → Stops (is_blank u) rest
      → stream (skip_whitespace u l) ≡ rest
  unfolding skip_whitespace
  skip_whitespace-stream blanks rest l h all stop =
      stream-skip_while (rounds l) (is_blank u) blanks rest l
        (omega (arith, length-stream l, ap length h, length-append blanks rest)) h all stop

  -- What the lexer does where the first rune that is no blank begins a quoted string or a word.
  next_token-Reads :
      (blanks : List Rune) (c : Rune) (cs value rest : List Rune) (kind : TokenType) (l : Lexer)
      → stream l ≡ blanks ++ c ∷ cs
      → All (is_blank u) blanks
      → is_blank u c ≡ false
      → (c == b'\n') ≡ false
      → (c == b'#') ≡ false
      → ((here : Lexer)
          → stream here ≡ c ∷ cs
          → Reads (if c == b'"' then read_string here else read_word u here) kind value rest)
      → (c == b'"' || is_word_char u c) ≡ true
      → Reads (next_token u l) kind value rest
  unfolding next_token next_token_from
  next_token-Reads blanks c cs value rest kind l h all blank newline hash reads starts =
      let here = skip_whitespace u l in
      let e = skip_whitespace-stream blanks (c ∷ cs) l h all blank in
      let r = stream-read_char here e in
      let it = reads here e in
      let P = λ (x : Token × Lexer). Reads x kind value rest in
      if-intro P here.at_eof (λ x. ground (arith, x, r.0))
        λ _.
          if-intro P (here.ch == b'\n') (λ x. ground (arith, x, r.1, newline))
            λ _.
              if-intro P (here.ch == b'#') (λ x. ground (arith, x, r.1, hash))
                λ _.
                  if-covered P (here.ch == b'"') (is_word_char u here.ch) _ _ _
                    (subst (λ d. (d == b'"' || is_word_char u d) ≡ true) (sym r.1) starts)
                    (subst (λ d. P (if d == b'"' then read_string here else read_word u here))
                      (sym r.1) it)

  -- `EscapeValue` may quote the value or leave it as it is.
  abbrev pub written_type : List Rune → TokenType
  written_type s = if is_quoted u s then string else word_type u s

  escape_value-quoted :
      (s rest : List Rune)
      → is_quoted u s ≡ true
      → escape_value u s ++ rest ≡ b'"' ∷ escape_runes s ++ b'"' ∷ rest
  unfolding escape_value
  escape_value-quoted s rest q = ground (arith, q, append_assoc (escape_runes s) (b'"' ∷ []) rest)

  escape_value-plain : (s : List Rune) → is_quoted u s ≡ false → escape_value u s ≡ s
  unfolding escape_value
  escape_value-plain s q = ground (arith, q)

  hash_is_no_word_char : is_word_char u b'#' ≡ false
  unfolding is_word_char
  hash_is_no_word_char = ground (arith, u.hash_is_no_letter, u.hash_is_no_digit)

  -- What the first rune of an unquoted value is not.
  plain_start :
      (c : Rune) (s : List Rune)
      → needs_quoted_value u (c ∷ s) ≡ false
      → (is_blank u c ≡ false)
        × ((c == b'\n') ≡ false)
        × ((c == b'#') ≡ false)
        × ((c == b'"') ≡ false)
        × (is_word_char u c ≡ true)
  unfolding needs_quoted_value
  plain_start c s q =
      let space : u.is_space c ≡ false = ground (arith, q) in
      let char : is_word_char u c ≡ true = ground (arith, q) in
      (
        ground (arith, space),
        elim (Bool-cases (c == b'\n')) [
          | inl n ↦
              let e : c ≡ b'\n' = ground (arith, n) in
              absurd (ground (arith, subst (λ x. u.is_space x ≡ false) e space, u.newline_is_space))
          | inr n ↦ n
        ],
        elim (Bool-cases (c == b'#')) [
          | inl n ↦
              let e : c ≡ b'#' = ground (arith, n) in
              absurd
                (ground (arith, subst (λ x. is_word_char u x ≡ true) e char, hash_is_no_word_char))
          | inr n ↦ n
        ],
        ground (arith, q),
        char,
      )

  next_token-quoted :
      (s blanks rest : List Rune) (l : Lexer)
      → stream l ≡ blanks ++ (escape_value u s ++ rest)
      → All (is_blank u) blanks
      → is_quoted u s ≡ true
      → Reads (next_token u l) string s rest
  next_token-quoted s blanks rest l h all q =
      next_token-Reads blanks b'"' (escape_runes s ++ b'"' ∷ rest) s rest string l
        (h ∙ ap (◌++◌ blanks) (escape_value-quoted s rest q)) all (rw u.quote_is_no_space refl) refl
        refl (λ here e. read_string-Reads s rest here e) refl

  next_token-plain :
      (s blanks rest : List Rune) (l : Lexer)
      → stream l ≡ blanks ++ (s ++ rest)
      → All (is_blank u) blanks
      → Stops (is_word_char u) rest
      → is_quoted u s ≡ false
      → Reads (next_token u l) (word_type u s) s rest
  next_token-plain [] blanks rest l h all stop q = ground (arith, q)
  next_token-plain (c ∷ s) blanks rest l h all stop q =
      let (blank, newline, hash, quote, char) = plain_start c s q in
      next_token-Reads blanks c (s ++ rest) (c ∷ s) rest (word_type u (c ∷ s)) l h all blank newline
        hash
        (λ here e.
          subst
            (λ b.
              Reads (if b then read_string here else read_word u here) (word_type u (c ∷ s)) (c ∷ s)
                rest)
            (sym quote) (read_word-Reads (c ∷ s) rest here e (word_chars (c ∷ s) q) stop))
        (ground (arith, char))

  -- A value that is written with `EscapeValue` and stands among other words, after any blanks and
  -- before whatever is no part of a word, comes back from NextToken as it was, and what follows it is
  -- left in the input. Its type is a string where it was quoted, else a word, the keyword set or a
  -- number.
  pub next_token-escape_value :
      (s blanks rest : List Rune) (l : Lexer)
      → stream l ≡ blanks ++ (escape_value u s ++ rest)
      → All (is_blank u) blanks
      → Stops (is_word_char u) rest
      → let (token, l') = next_token u l in
        (token.value ≡ s) × (token.kind ≡ written_type s) × (stream l' ≡ rest)
  next_token-escape_value s blanks rest l h all stop =
      let Result = λ (kind : TokenType). Reads (next_token u l) kind s rest in
      let out : Reads (next_token u l) (written_type s) s rest =
        if-intro Result (is_quoted u s) (next_token-quoted s blanks rest l h all) (λ q.
          next_token-plain s blanks rest l
            (h ∙ ap (λ x. blanks ++ (x ++ rest)) (escape_value-plain s q)) all stop q) in
      (out.1, out.0, out.2)

  all_digit-All : (s : List Rune) → all_digit u s ≡ true → All u.is_digit s
  unfolding all_digit
  all_digit-All [] h = tt
  all_digit-All (c ∷ s) h = (ground (arith, h), all_digit-All s (ground (arith, h)))

  All-all_digit : (s : List Rune) → All u.is_digit s → all_digit u s ≡ true
  unfolding all_digit
  All-all_digit [] h = refl
  All-all_digit (c ∷ s) h = ground (arith, h.0, All-all_digit s h.1)

  -- The values that are no word for the lexer: the keyword, and what is made of digits alone.
  abbrev pub Unreadable : List Rune → Type 0
  Unreadable s = (s ≡ codes "set") ⊎ All u.is_digit s

  digits_only : (s : List Rune) → is_number u s ≡ true → All u.is_digit s
  unfolding is_number
  digits_only [] h = tt
  digits_only (c ∷ s) h = all_digit-All (c ∷ s) h

  is_number-Unreadable :
      (s : List Rune) → (bytes_eq s (codes "set") || is_number u s) ≡ true → Unreadable s
  is_number-Unreadable s h = elim (Bool-cases (bytes_eq s (codes "set"))) [
    | inl e ↦ inl ((bytes_eq_iff s (codes "set")).0 e)
    | inr e ↦ inr (digits_only s (ground (arith, h, e)))
  ]

  Unreadable-is_number :
      (s : List Rune)
      → is_quoted u s ≡ false
      → Unreadable s
      → (bytes_eq s (codes "set") || is_number u s) ≡ true
  unfolding is_number
  Unreadable-is_number [] q h = ground (arith, q)
  Unreadable-is_number (c ∷ s) q (inl e) = ground (arith, (bytes_eq_iff (c ∷ s) (codes "set")).1 e)
  Unreadable-is_number (c ∷ s) q (inr h) = ground (arith, All-all_digit (c ∷ s) h)

  -- A host name that the file is written with, after any blanks and before whatever is no part of a
  -- word, is refused when the file is read back exactly where it was written without quotation marks
  -- and is the word `set` or made of digits alone.
  pub accepts_value-next_token :
      (s blanks rest : List Rune) (l : Lexer)
      → stream l ≡ blanks ++ (escape_value u s ++ rest)
      → All (is_blank u) blanks
      → Stops (is_word_char u) rest
      → (accepts_value (next_token u l).0.kind ≡ false)
        ↔ ((is_quoted u s ≡ false) × ((s ≡ codes "set") ⊎ All u.is_digit s))
  unfolding accepts_value
  accepts_value-next_token s blanks rest l h all stop =
      let kind = (next_token-escape_value s blanks rest l h all stop).1 in
      (
        λ refused.
            (ground (arith, kind, refused), is_number-Unreadable s (ground (arith, kind, refused))),
        λ odd. ground (arith, kind, odd.0, Unreadable-is_number s odd.0 odd.1),
      )
