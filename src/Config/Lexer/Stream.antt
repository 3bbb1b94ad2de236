-- ===== src/Config/Lexer/Stream.antt =====
-- The runes that a lexer of pkg/config/lexer.go has still to read, the current one in front.
use arca_router.Prelude.{
  ℕ, zero, suc, ◌≤◌, ◌<◌, Bool, true, false, List, [], ◌∷◌, ◌++◌, ◌≡◌, arith, length, if◌then◌else◌,
  append_assoc, append-nil,
}
use arca_router.Config.Lexer.{Rune, Lexer, read_char, skip_while, read_while}

abbrev pub stream : Lexer → List Rune
stream l = if l.at_eof then [] else l.ch ∷ l.reader

-- What a lexer with something to read has, and what it has after a rune.
pub stream-read_char :
    (l : Lexer) {c : Rune} {cs : List Rune}
    → stream l ≡ c ∷ cs
    → (l.at_eof ≡ false) × (l.ch ≡ c) × (stream (read_char l) ≡ cs)
unfolding read_char
stream-read_char l h = (ground (arith, h), ground (arith, h), ground (arith, h))

pub stream-read_char_le : (l : Lexer) → length (stream (read_char l)) ≤ length l.reader
unfolding read_char
stream-read_char_le l = ground arith

pub stream_nil : (l : Lexer) → stream l ≡ [] → l.at_eof ≡ true
stream_nil l h = ground (arith, h)

-- The first rune, if there is one, fails the test.
abbrev pub Stops : (Rune → Bool) → List Rune → Type 0
Stops test [] = Unit {0}
Stops test (c ∷ cs) = test c ≡ false

abbrev pub All : (Rune → Bool) → List Rune → Type 0
All test [] = Unit {0}
All test (c ∷ cs) = (test c ≡ true) × All test cs

pub stream-skip_while :
    (fuel : ℕ) (test : Rune → Bool) (run rest : List Rune) (l : Lexer)
    → length run < fuel
    → stream l ≡ run ++ rest
    → All test run
    → Stops test rest
    → stream (skip_while fuel test l) ≡ rest
unfolding skip_while
stream-skip_while zero test run rest l f h all stop = elim f [ ]
stream-skip_while (suc fuel) test [] [] l f h all stop = ground (arith, h, stream_nil l h)
stream-skip_while (suc fuel) test [] (c ∷ rest) l f h all stop =
    let r = stream-read_char l h in ground (arith, h, r.0, r.1, stop)
stream-skip_while (suc fuel) test (c ∷ run) rest l f h all stop =
    let r = stream-read_char l h in
    let later =
      stream-skip_while fuel test run rest (read_char l) (omega (arith, f)) r.2 all.1 stop in
    ground (arith, r.0, r.1, all.0, later)

pub read_while_run :
    (fuel : ℕ) (test : Rune → Bool) (read run rest : List Rune) (l : Lexer)
    → length run < fuel
    → stream l ≡ run ++ rest
    → All test run
    → Stops test rest
    → ((read_while fuel test read l).0 ≡ read ++ run)
      × (stream (read_while fuel test read l).1 ≡ rest)
unfolding read_while
read_while_run zero test read run rest l f h all stop = elim f [ ]
read_while_run (suc fuel) test read [] [] l f h all stop =
    let e = stream_nil l h in (ground (arith, e, append-nil read), ground (arith, h, e))
read_while_run (suc fuel) test read [] (c ∷ rest) l f h all stop =
    let r = stream-read_char l h in
    (ground (arith, r.0, r.1, stop, append-nil read), ground (arith, h, r.0, r.1, stop))
read_while_run (suc fuel) test read (c ∷ run) rest l f h all stop =
    let r = stream-read_char l h in
    let later =
      read_while_run fuel test (read ++ l.ch ∷ []) run rest (read_char l) (omega (arith, f)) r.2
        all.1 stop in
    (
      ground (arith, r.0, r.1, all.0, later.0, append_assoc read (l.ch ∷ []) run),
      ground (arith, r.0, r.1, all.0, later.1),
    )

pub length-skip_while :
    (fuel : ℕ) (test : Rune → Bool) (l : Lexer)
    → length (stream (skip_while fuel test l)) ≤ length (stream l)
unfolding skip_while
length-skip_while zero test l = omega arith
length-skip_while (suc fuel) test l =
    ground (arith, length-skip_while fuel test (read_char l), stream-read_char_le l)

pub length-read_while :
    (fuel : ℕ) (test : Rune → Bool) (read : List Rune) (l : Lexer)
    → length (stream (read_while fuel test read l).1) ≤ length (stream l)
unfolding read_while
length-read_while zero test read l = omega arith
length-read_while (suc fuel) test read l =
    ground
      (arith, length-read_while fuel test (read ++ l.ch ∷ []) (read_char l), stream-read_char_le l)
