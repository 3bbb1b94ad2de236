-- ===== src/Netconf/Framing/Eom.antt =====
-- base:1.0 framing: what `writeEOMMessage` writes and what `readEOMMessage` makes of it.
pub mod RoundTrip
use arca_router.Prelude.{
  ℕ, zero, suc, ◌+◌, ◌-◌, ◌≤◌, ◌<◌, Bool, true, false, List, [], ◌∷◌, ◌++◌, Option, none, some, ok,
  err, ◌≡◌, ◌≢◌, refl, sym, ap, ◌∙◌, ◌⊎◌, inl, inr, arith, ltb, if◌then◌else◌, ltb→le, le→ltb,
  Bool-cases, length, take, drop, length-append, take-append, drop-append, take-append-drop,
  append-nil, append_assoc, Bytes, bytes_eq, bytes_eq_iff, codes, tests,
}
use arca_router.Netconf.Framing.{
  eom_marker, max_message_size, message_too_large, has_suffix, read_eom, read_eom_message,
  starts_with, contains, write_eom_message,
}

-- A text that ends with `suffix` splits in front of it, and the other way round.
pub has_suffix-split :
    (suffix buffer : Bytes)
    → has_suffix suffix buffer ≡ true
    → buffer ≡ take (length buffer - length suffix) buffer ++ suffix
unfolding has_suffix
has_suffix-split suffix buffer h =
    let same = (bytes_eq_iff (drop (length buffer - length suffix) buffer) suffix).0 in
    ground (arith, same, take-append-drop (length buffer - length suffix) buffer)

pub has_suffix-append : (suffix front : Bytes) → has_suffix suffix (front ++ suffix) ≡ true
unfolding has_suffix
has_suffix-append suffix front =
    let size = length-append front suffix in
    rw (drop-append (length (front ++ suffix) - length suffix) front suffix (omega (arith, size)))
      (ground (arith, size, bytes_eq_iff suffix suffix))

starts_with-append : (sub rest : Bytes) → starts_with sub (sub ++ rest) ≡ true
unfolding starts_with
starts_with-append [] rest = refl
starts_with-append (x ∷ xs) rest = ground (arith, starts_with-append xs rest)

pub contains-append : (sub front rest : Bytes) → contains sub (front ++ (sub ++ rest)) ≡ true
unfolding contains starts_with
contains-append [] [] [] = refl
contains-append [] [] (x ∷ rest) = refl
contains-append (y ∷ sub) [] rest = ground (arith, starts_with-append sub rest)
contains-append sub (x ∷ front) rest = ground (arith, contains-append sub front rest)

-- `>` and the border of the marker.
abbrev pub marker_border : Bytes
marker_border = codes "]]>"

-- Where the marker can stand in `message ++ marker` but at the end: it overlaps the marker by its
-- border, or it lies inside the message.
marker_start :
    (q message : Bytes)
    → eom_marker ++ q ≡ message ++ eom_marker
    → q ≢ []
    → (message ≡ marker_border) ⊎ ((rest : Bytes) × (message ≡ eom_marker ++ rest))
marker_start q [] h ne = absurd (ne (ground arith))
marker_start q (a ∷ []) h ne = ground arith
marker_start q (a ∷ b ∷ []) h ne = ground arith
marker_start q (a ∷ b ∷ c ∷ []) h ne = inl (ground arith)
marker_start q (a ∷ b ∷ c ∷ d ∷ []) h ne = ground arith
marker_start q (a ∷ b ∷ c ∷ d ∷ e ∷ []) h ne = ground arith
marker_start q (a ∷ b ∷ c ∷ d ∷ e ∷ f ∷ rest) h ne = inr (rest, ground arith)

pub marker_place :
    (front q message : Bytes)
    → front ++ (eom_marker ++ q) ≡ message ++ eom_marker
    → q ≢ []
    → (message ≡ front ++ marker_border)
      ⊎ ((rest : Bytes) × (message ≡ front ++ (eom_marker ++ rest)))
marker_place [] q message h ne = marker_start q message h ne
marker_place (x ∷ front) q [] h ne =
    absurd (omega (arith, ap length h, length-append front (eom_marker ++ q)))
marker_place (x ∷ front) q (y ∷ message) h ne =
    elim (marker_place front q message (ground arith) ne) [
      | inl e ↦ inl (ground arith)
      | inr (rest, e) ↦ inr (rest, ground arith)
    ]

-- No proper front of `s` completes a marker behind `buffer`.
abbrev pub Quiet : Bytes → Bytes → Type 0
Quiet buffer s =
    (p q : Bytes) → p ++ q ≡ s → p ≢ [] → q ≢ [] → has_suffix eom_marker (buffer ++ p) ≡ false

Quiet-cons : (b : ℕ) (buffer s : Bytes) → Quiet buffer (b ∷ s) → Quiet (buffer ++ b ∷ []) s
Quiet-cons b buffer s h p q e np nq =
    rw (append_assoc buffer (b ∷ []) p) (h (b ∷ p) q (ap (◌∷◌ b) e) (λ x. cc) nq)

read_eom-quiet :
    (b : ℕ) (bs buffer : Bytes) (total : ℕ)
    → has_suffix eom_marker (buffer ++ b ∷ []) ≡ false
    → read_eom buffer total (b ∷ bs) ≡ (
        if ltb max_message_size (total + 1)
        then err message_too_large
        else read_eom (buffer ++ b ∷ []) (total + 1) bs)
unfolding read_eom
read_eom-quiet b bs buffer total h = rw h refl

read_eom-found :
    (b : ℕ) (bs buffer : Bytes) (total : ℕ)
    → has_suffix eom_marker (buffer ++ b ∷ []) ≡ true
    → read_eom buffer total (b ∷ bs) ≡ (
        if ltb max_message_size (total + 1)
        then err message_too_large
        else ok (take (length (buffer ++ b ∷ []) - 6) (buffer ++ b ∷ []), bs))
unfolding read_eom
read_eom-found b bs buffer total h = rw h refl

-- The loop stops at the end of `s` where the marker is complete there and not before.
pub read_eom-scan :
    (s rest buffer : Bytes) (total : ℕ)
    → s ≢ []
    → Quiet buffer s
    → has_suffix eom_marker (buffer ++ s) ≡ true
    → read_eom buffer total (s ++ rest) ≡ (
        if ltb max_message_size (total + length s)
        then err message_too_large
        else ok (take (length (buffer ++ s) - 6) (buffer ++ s), rest))
read_eom-scan [] rest buffer total ne quiet found = absurd (ne refl)
read_eom-scan (b ∷ []) rest buffer total ne quiet found = read_eom-found b rest buffer total found
read_eom-scan (b ∷ c ∷ s) rest buffer total ne quiet found =
    let assoc = append_assoc buffer (b ∷ []) (c ∷ s) in
    let first = quiet (b ∷ []) (c ∷ s) refl (λ x. cc) (λ x. cc) in
    let later =
      read_eom-scan (c ∷ s) rest (buffer ++ b ∷ []) (total + 1) (λ x. cc)
        (Quiet-cons b buffer (c ∷ s) quiet) (rw assoc found) in
    rw (read_eom-quiet b (c ∷ s ++ rest) buffer total first, later, assoc) (ground arith)
