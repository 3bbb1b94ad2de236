-- ===== src/Netconf/Framing/Eom/RoundTrip.antt =====
-- Reading back what the base:1.0 writer wrote, and the messages that it loses.
use arca_router.Prelude.{
  ℕ, ◌+◌, ◌-◌, ◌≤◌, true, false, [], ◌∷◌, ◌++◌, ok, err, ◌≡◌, refl, sym, ap, ◌∙◌, inl, inr, arith,
  ltb, if◌then◌else◌, Bool-cases, le→ltb, length-take, length, take, length-append, take-append,
  append_assoc, Bytes, append_sink,
}
use arca_router.Netconf.Framing.{
  eom_marker, max_message_size, message_too_large, has_suffix, read_eom, read_eom_message, contains,
  starts_with, write_eom_message,
}
use arca_router.Netconf.Framing.Eom.{
  marker_border, has_suffix-split, has_suffix-append, contains-append, marker_place, Quiet,
  read_eom-scan,
}

message-Quiet :
    (message : Bytes)
    → contains eom_marker message ≡ false
    → has_suffix marker_border message ≡ false
    → Quiet [] (message ++ eom_marker)
message-Quiet message free open_end p q e np nq = elim (Bool-cases (has_suffix eom_marker p)) [
  | inr h ↦ h
  | inl h ↦
      let front = take (length p - 6) p in
      let split = has_suffix-split eom_marker p h in
      let whole : front ++ (eom_marker ++ q) ≡ message ++ eom_marker =
        sym (append_assoc front eom_marker q) ∙ ap (λ x. x ++ q) (sym split) ∙ e in
      elim (marker_place front q message whole nq) [
        | inl at_end ↦ cc (at_end, has_suffix-append marker_border front)
        | inr (rest, inside) ↦ cc (inside, contains-append eom_marker front rest)
      ]
]

-- A message with no marker, which does not end with the marker's border, comes back from the
-- reader as it was written, and what follows stays unread; past the size limit the reader refuses.
pub read_eom_message-append :
    (message rest : Bytes)
    → contains eom_marker message ≡ false
    → has_suffix marker_border message ≡ false
    → read_eom_message (message ++ (eom_marker ++ rest)) ≡ (
        if ltb max_message_size (length message + 6)
        then err message_too_large
        else ok (message, rest))
unfolding read_eom_message
read_eom_message-append message rest free open_end =
    let whole = message ++ eom_marker in
    let size = length-append message eom_marker in
    let cut = take-append (length whole - 6) message eom_marker (omega (arith, size)) in
    let scanned =
      read_eom-scan whole rest [] 0 (λ e. omega (arith, ap length e, size))
        (message-Quiet message free open_end) (has_suffix-append eom_marker message) in
    ap (read_eom [] 0) (sym (append_assoc message eom_marker rest))
    ∙ scanned
    ∙ rw cut (ground (arith, size))

-- What `WriteMessage` puts out in base:1.0 framing, `ReadMessage` gives back unchanged with the
-- bytes behind it unread, if the message does not end with `]]>` and the frame is within the limit.
pub read-write_eom :
    (message rest : Bytes) {out : Bytes}
    → write_eom_message append_sink [] message ≡ ok out
    → has_suffix marker_border message ≡ false
    → length out ≤ max_message_size
    → read_eom_message (out ++ rest) ≡ ok (message, rest)
unfolding write_eom_message
read-write_eom message rest {out} h open_end fits =
    elim (Bool-cases (contains eom_marker message)) [
      | inl bad ↦ absurd (ground arith)
      | inr free ↦
          let shape : message ++ eom_marker ≡ out = ground arith in
          rw (← shape, append_assoc message eom_marker rest)
            (read_eom_message-append message rest free open_end
              ∙ ground (arith, ap length shape, length-append message eom_marker))
    ]

starts_with_mono :
    (sub text rest : Bytes) → starts_with sub text ≡ true → starts_with sub (text ++ rest) ≡ true
unfolding starts_with
starts_with_mono [] text rest h = refl
starts_with_mono (x ∷ sub) [] rest h = cc
starts_with_mono (x ∷ sub) (y ∷ text) rest h = ground (arith, starts_with_mono sub text rest)

contains_mono :
    (sub text rest : Bytes) → contains sub text ≡ true → contains sub (text ++ rest) ≡ true
unfolding contains starts_with
contains_mono [] [] [] h = refl
contains_mono [] [] (x ∷ rest) h = refl
contains_mono (x ∷ sub) [] rest h = cc
contains_mono sub (x ∷ text) rest h =
    ground (arith, contains_mono sub text rest, starts_with_mono sub (x ∷ text) rest)

border_twice :
    (message : Bytes)
    → has_suffix marker_border message ≡ true
    → contains eom_marker (message ++ marker_border) ≡ true
border_twice message h =
    let front = take (length message - 3) message in
    let split = has_suffix-split marker_border message h in
    let again = append_assoc front marker_border marker_border in
    cc (contains-append eom_marker front [])

-- A message that ends with `]]>`, holds no marker and fits the limit without its end: the writer
-- writes it, and the reader gives back three bytes less and leaves `]]>` in front of what follows.
pub read-write_eom_lossy :
    (message rest : Bytes)
    → contains eom_marker (message ++ marker_border) ≡ false
    → length message + 6 ≤ max_message_size
    → (out : Bytes) × (write_eom_message append_sink [] (message ++ marker_border) ≡ ok out)
      × (read_eom_message (out ++ rest) ≡ ok (message, marker_border ++ rest))
unfolding write_eom_message
read-write_eom_lossy message rest free fits =
    let whole = append_assoc (message ++ marker_border) eom_marker rest in
    let bare = contains_mono eom_marker message marker_border in
    let again = border_twice message in
    (
      (message ++ marker_border) ++ eom_marker,
      ground (arith, free),
      rw (whole, append_assoc message marker_border (eom_marker ++ rest))
          (read_eom_message-append message (marker_border ++ rest) (ground (arith, bare, free))
              (ground (arith, again, free))
            ∙ rw (le→ltb max_message_size (length message + 6) fits) refl),
    )

-- Whatever the reader returns stood in front of a marker in its input, and fits the limit.
read_eom_sound :
    (input buffer : Bytes) (total : ℕ) {message rest : Bytes}
    → total ≡ length buffer
    → read_eom buffer total input ≡ ok (message, rest)
    → (buffer ++ input ≡ message ++ (eom_marker ++ rest)) × (length message + 6 ≤ max_message_size)
unfolding read_eom
read_eom_sound [] buffer total t h = absurd (ground arith)
read_eom_sound (b ∷ bs) buffer total {message} {rest} t h = ground (
  arith,
  read_eom_sound bs (buffer ++ b ∷ []) (total + 1) {message = message} {rest = rest},
  has_suffix-split eom_marker (buffer ++ b ∷ []),
  length-append buffer (b ∷ []),
  length-take (length (buffer ++ b ∷ []) - 6) (buffer ++ b ∷ []),
  append_assoc buffer (b ∷ []) bs,
  append_assoc message eom_marker rest,
)

pub read_eom_message_sound :
    (input : Bytes) {message rest : Bytes}
    → read_eom_message input ≡ ok (message, rest)
    → (input ≡ message ++ (eom_marker ++ rest)) × (length message + 6 ≤ max_message_size)
unfolding read_eom_message
read_eom_message_sound input h = read_eom_sound input [] 0 refl h
