-- ===== src/Config/Escape/Strings.antt =====
-- Values in quotation marks under `readString` of pkg/config/lexer.go.
use arca_router.Prelude.{
  ℕ, zero, suc, ◌≤◌, ◌<◌, false, List, [], ◌∷◌, ◌++◌, some, ◌≡◌, arith, ◌==◌, length, if◌then◌else◌,
  Bool-cases, inl, inr, append_assoc, append-nil, length-append, ap, subst, ◌∙◌,
}
use arca_router.Config.Lexer.{
  Rune, Lexer, string, read_char, rounds, read_string_from, read_string_char, unescape, token_at,
}
use arca_router.Config.Lexer.Stream.{stream, stream-read_char}
use arca_router.Config.Escape.{replace_all, escape_runes}

-- One rune of the value in quotation marks.
abbrev escape_rune : Rune → List Rune
escape_rune c =
    if c == b'\\'
    then b'\\' ∷ b'\\' ∷ []
    else if c == b'\n'
    then b'\\' ∷ b'n' ∷ []
    else if c == b'\t'
    then b'\\' ∷ b't' ∷ []
    else if c == b'"'
    then b'\\' ∷ b'"' ∷ []
    else c ∷ []

escape_runes-cons :
    (c : Rune) (s : List Rune) → escape_runes (c ∷ s) ≡ escape_rune c ++ escape_runes s
unfolding escape_runes replace_all
escape_runes-cons c s = ground arith

-- A round of `readString` takes one escaped rune.
abbrev Takes : Rune → List Rune → Lexer → Type 0
Takes c rest l =
    (l' : Lexer) × (read_string_char l ≡ some (c, l'))
    × (stream l' ≡ rest)
    × (l.at_eof ≡ false)
    × ((l.ch == b'"') ≡ false)

escaped_rune-Takes :
    (e : Rune) (rest : List Rune) (l : Lexer)
    → stream l ≡ b'\\' ∷ e ∷ rest
    → Takes (unescape e) rest l
unfolding read_string_char
escaped_rune-Takes e rest l h =
    let first = stream-read_char l h in
    let second = stream-read_char (read_char l) first.2 in
    (
      read_char (read_char l),
      ground (arith, first.1, second.0, second.1),
      second.2,
      first.0,
      ground (arith, first.1),
    )

plain_rune-Takes :
    (c : Rune) (rest : List Rune) (l : Lexer)
    → (c == b'\\') ≡ false
    → (c == b'"') ≡ false
    → stream l ≡ c ∷ rest
    → Takes c rest l
unfolding read_string_char
plain_rune-Takes c rest l b q h =
    let r = stream-read_char l h in
    (read_char l, ground (arith, r.1, b), r.2, r.0, ground (arith, r.1, q))

escape_rune-Takes :
    (c : Rune) (rest : List Rune) (l : Lexer) → stream l ≡ escape_rune c ++ rest → Takes c rest l
unfolding unescape
escape_rune-Takes c rest l h = elim (Bool-cases (c == b'\\')) [
  | inl b ↦
      subst (λ x. Takes x rest l) (ground (arith, b))
        (escaped_rune-Takes b'\\' rest l (ground (arith, h, b)))
  | inr b ↦ elim (Bool-cases (c == b'\n')) [
    | inl n ↦
        subst (λ x. Takes x rest l) (ground (arith, n))
          (escaped_rune-Takes b'n' rest l (ground (arith, h, b, n)))
    | inr n ↦ elim (Bool-cases (c == b'\t')) [
      | inl t ↦
          subst (λ x. Takes x rest l) (ground (arith, t))
            (escaped_rune-Takes b't' rest l (ground (arith, h, b, n, t)))
      | inr t ↦ elim (Bool-cases (c == b'"')) [
        | inl q ↦
            subst (λ x. Takes x rest l) (ground (arith, q))
              (escaped_rune-Takes b'"' rest l (ground (arith, h, b, n, t, q)))
        | inr q ↦ plain_rune-Takes c rest l b q (ground (arith, h, b, n, t, q))
      ]
    ]
  ]
]

pub read_string_from-escape_runes :
    (fuel : ℕ) (start : Lexer) (read s rest : List Rune) (l : Lexer)
    → length s < fuel
    → stream l ≡ escape_runes s ++ b'"' ∷ rest
    → ((read_string_from fuel start read l).0 ≡ token_at start string (read ++ s))
      × (stream (read_string_from fuel start read l).1 ≡ rest)
unfolding read_string_from
read_string_from-escape_runes zero start read s rest l f h = elim f [ ]
read_string_from-escape_runes (suc fuel) start read [] rest l f h =
    let r = stream-read_char l {c = b'"'} {cs = rest} (unfold escape_runes replace_all in h) in
    (ground (arith, r.0, r.1, append-nil read), ground (arith, r.0, r.1, r.2))
read_string_from-escape_runes (suc fuel) start read (c ∷ s) rest l f h =
    let spread =
      ap (λ x. x ++ b'"' ∷ rest) (escape_runes-cons c s)
      ∙ append_assoc (escape_rune c) (escape_runes s) (b'"' ∷ rest) in
    let (l', e, h', here, inside) =
      escape_rune-Takes c (escape_runes s ++ b'"' ∷ rest) l (h ∙ spread) in
    let later =
      read_string_from-escape_runes fuel start (read ++ c ∷ []) s rest l' (omega (arith, f)) h' in
    (
      ground (arith, e, here, inside, later.0, append_assoc read (c ∷ []) s),
      ground (arith, e, here, inside, later.1),
    )

pub length-escape_runes : (s : List Rune) → length s ≤ length (escape_runes s)
length-escape_runes [] = omega arith
length-escape_runes (c ∷ s) =
    let spread = ap length (escape_runes-cons c s) in
    ground (arith, spread, length-append (escape_rune c) (escape_runes s), length-escape_runes s)

pub length-stream : (l : Lexer) → length (stream l) < rounds l
length-stream l = ground arith
