-- ===== src/Config/Lexer/Progress.antt =====
-- How far a call of the lexer of pkg/config/lexer.go gets.
use arca_router.Prelude.{
  ℕ, zero, suc, ◌≤◌, ◌<◌, Bool, true, false, not, List, [], ◌∷◌, ◌++◌, none, some, ◌≡◌, ◌≢◌, refl,
  arith, ◌==◌, length, if-intro, codes, inl, inr, ◌⊎◌,
}
use arca_router.Config.Lexer.{
  Rune, Unicode, Token, Lexer, eof, out_of_fuel, error, read_char, skip_while, read_while,
  skip_line, rounds, read_string, read_string_from, read_string_char, read_word, skip_whitespace,
  next_token_from, next_token, is_word_char, word_type, is_blank, token_at,
}
use arca_router.Config.Lexer.Stream.{
  stream, stream-read_char_le, length-skip_while, length-read_while,
}

-- The token came in time, and the lexer has less to read than `before`.
abbrev Advances : ℕ → Token × Lexer → Type 0
Advances before (token, l) = (token.kind ≢ out_of_fuel) × (length (stream l) < before)

read_string_char_shorter :
    (l : Lexer) {c : Rune} {l' : Lexer}
    → l.at_eof ≡ false
    → read_string_char l ≡ some (c, l')
    → length (stream l') < length (stream l)
unfolding read_string_char
read_string_char_shorter l h e =
    ground (arith, h, e, stream-read_char_le l, stream-read_char_le (read_char l))

read_string_from-Advances :
    (fuel before : ℕ) (start : Lexer) (read : List Rune) (l : Lexer)
    → length (stream l) < fuel
    → length (stream l) < before
    → Advances before (read_string_from fuel start read l)
unfolding read_string_from
read_string_from-Advances zero before start read l f b = elim f [ ]
read_string_from-Advances (suc fuel) before start read l f b =
    let shorter = stream-read_char_le l in
    if-intro (Advances before) l.at_eof (λ e. ((λ x. cc), b))
      λ e.
        if-intro (Advances before) (l.ch == b'"') (λ q. ((λ x. cc), ground (arith, e, b, shorter)))
          λ q.
            (elim (read_string_char l)
                as (λ r.
                  read_string_char l ≡ r
                  → Advances before (elim r [
                    | none ↦ (token_at start error (codes "unexpected EOF in string"), read_char l)
                    | some (c, l') ↦ read_string_from fuel start (read ++ c ∷ []) l'
                  ])) [
                    | none ↦ λ s. ((λ x. cc), ground (arith, e, b, shorter))
                    | some (c, l') ↦ λ s.
                        let next = read_string_char_shorter l e s in
                        read_string_from-Advances fuel before start (read ++ c ∷ []) l'
                          (omega (arith, next, f)) (omega (arith, next, b))
                  ])
              refl

-- The outcome of a call that began with `before` runes to read.
abbrev pub Ahead : ℕ → Token × Lexer → Type 0
Ahead before (token, l) =
    (token.kind ≢ out_of_fuel)
    × (((token.kind ≡ eof) × (stream l ≡ [])) ⊎ (length (stream l) < before))

Advances-Ahead :
    (before after : ℕ) (result : Token × Lexer)
    → before ≤ after
    → Advances before result
    → Ahead after result
Advances-Ahead before after (token, l) h a = (a.0, inr (omega (arith, a.1, h)))

read_string-Advances : (l : Lexer) → l.at_eof ≡ false → Advances (length (stream l)) (read_string l)
unfolding read_string
read_string-Advances l e =
    let shorter = stream-read_char_le l in
    read_string_from-Advances (rounds l) (length (stream l)) l [] (read_char l)
      (omega (arith, shorter)) (ground (arith, e, shorter))

read_char_le : (l : Lexer) → length (stream (read_char l)) ≤ length (stream l)
unfolding read_char
read_char_le l = ground arith

skip_while_shorter :
    (fuel : ℕ) (test : Rune → Bool) (l : Lexer)
    → l.at_eof ≡ false
    → test l.ch ≡ true
    → length (stream (skip_while (suc fuel) test l)) < length (stream l)
unfolding skip_while
skip_while_shorter fuel test l e t =
    ground (arith, e, t, stream-read_char_le l, length-skip_while fuel test (read_char l))

skip_line_shorter :
    (l : Lexer) → l.at_eof ≡ false → l.ch ≡ b'#' → length (stream (skip_line l)) < length (stream l)
unfolding skip_line
skip_line_shorter l e hash =
    let test = λ (c : Rune). not (c == b'\n') in
    let end = skip_while (rounds l) test l in
    let shorter = skip_while_shorter (suc (length l.reader)) test l e (rw hash refl) in
    if-intro (λ (x : Lexer). length (stream x) < length (stream l)) (end.ch == b'\n')
      (λ _. omega (arith, read_char_le end, shorter)) (λ _. shorter)

module _ (u : Unicode) where
  word_type_in_time : (value : List Rune) → word_type u value ≢ out_of_fuel
  word_type_in_time value h = ground (arith, h)

  read_word-Advances :
      (l : Lexer)
      → l.at_eof ≡ false
      → is_word_char u l.ch ≡ true
      → Advances (length (stream l)) (read_word u l)
  unfolding read_word read_while
  read_word-Advances l e w = (
    word_type_in_time (read_while (rounds l) (is_word_char u) [] l).0,
    ground (
      arith,
      e,
      w,
      stream-read_char_le l,
      length-read_while (suc (length l.reader)) (is_word_char u) (l.ch ∷ []) (read_char l),
    ),
  )

  skipped : (l : Lexer) → length (stream (skip_whitespace u l)) ≤ length (stream l)
  unfolding skip_whitespace
  skipped l = length-skip_while (rounds l) (is_blank u) l

  read_char_shorter :
      (l : Lexer) → l.at_eof ≡ false → length (stream (read_char l)) < length (stream l)
  read_char_shorter l e = ground (arith, e, stream-read_char_le l)

  next_token_from-Ahead :
      (fuel before : ℕ) (l : Lexer)
      → length (stream l) < fuel
      → length (stream l) ≤ before
      → Ahead before (next_token_from u fuel l)
  unfolding next_token_from
  next_token_from-Ahead zero before l f b = elim f [ ]
  next_token_from-Ahead (suc fuel) before l f b =
      let here = skip_whitespace u l in
      let le = skipped l in
      let P = Ahead before in
      if-intro P here.at_eof (λ e. ((λ x. cc), inl (refl, ground (arith, e))))
        λ e.
          let shorter = read_char_shorter here e in
          if-intro P (here.ch == b'\n') (λ n. ((λ x. cc), inr (omega (arith, shorter, le, b))))
            λ n.
              if-intro P (here.ch == b'#')
                (λ h.
                  let line = skip_line_shorter here e (ground (arith, h)) in
                  next_token_from-Ahead fuel before (skip_line here) (omega (arith, line, le, f))
                    (omega (arith, line, le, b)))
                λ h.
                  if-intro P (here.ch == b'"')
                    (λ q.
                      Advances-Ahead (length (stream here)) before (read_string here)
                        (omega (arith, le, b)) (read_string-Advances here e))
                    λ q.
                      if-intro P (is_word_char u here.ch)
                        (λ w.
                          Advances-Ahead (length (stream here)) before (read_word u here)
                            (omega (arith, le, b)) (read_word-Advances here e w))
                        (λ w. ((λ x. cc), inr (omega (arith, shorter, le, b))))

  -- A call of NextToken ends, and either the input is at its end or the call has used up a part of it:
  -- a parser that asks for tokens until the end of the input gets there.
  pub next_token-Ahead : (l : Lexer) → Ahead (length (stream l)) (next_token u l)
  unfolding next_token
  next_token-Ahead l =
      next_token_from-Ahead (rounds l) (length (stream l)) l (ground arith) (omega arith)
