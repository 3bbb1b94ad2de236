-- ===== src/Netconf/Framing/Tests.antt =====
-- Runs of the framing code at concrete messages, and its theorems at concrete inputs.
use arca_router.Prelude.{
  [], ◌+◌, Bytes, ◌≤◌, ◌++◌, ◌≡◌, refl, ok, err, arith, length, bytes_eq, codes, append_sink,
}
use arca_router.Netconf.Framing.{
  no_chunk, bad_separator, contains_marker, chunk_too_large, read_chunked_message, read_chunks,
  read_chunk_separator, read_bounded_line, chunk_size_of, is_bad_header, strip_header,
  parse_chunk_size, all_digits, decimal, check_sizes, read_full, write_chunks, chunk_header, digits,
  read_eom_message, write_chunked_message, write_eom_message, has_suffix, eom_marker, contains,
  starts_with,
}
use arca_router.Netconf.Framing.Chunked.RoundTrip.{read-write_chunked}
use arca_router.Netconf.Framing.Chunked.Sound.{Ensures, Within, read_chunked_message-Ensures}
use arca_router.Netconf.Framing.Eom.RoundTrip.{
  read-write_eom, read-write_eom_lossy, read_eom_message_sound,
}

read-write_runs :
    (write_chunked_message append_sink [] (codes "<rpc/>") ≡ ok (codes "\n#6\n<rpc/>\n##\n"))
    × (read_chunked_message (codes "\n#6\n<rpc/>\n##\n<x") ≡ ok (codes "<rpc/>", codes "<x"))
    × (read_eom_message (codes "<rpc/>]]>]]>x") ≡ ok (codes "<rpc/>", codes "x"))
    × (read_chunked_message (codes "\n##\n") ≡ err no_chunk)
    × (read_chunked_message (codes "#3\nabc\n##\n") ≡ err bad_separator)
    × (read_chunked_message (codes "\n#16777217\n") ≡ err chunk_too_large)
    × (write_eom_message append_sink [] (codes "a]]>]]>b") ≡ err contains_marker)
unfolding read_chunked_message read_chunks read_chunk_separator read_bounded_line chunk_size_of
    is_bad_header strip_header parse_chunk_size all_digits decimal check_sizes read_full bytes_eq
    write_chunked_message write_chunks chunk_header digits read_eom_message write_eom_message
read-write_runs = (refl, refl, refl, refl, refl, refl, refl)

read-write_chunked_example :
    read_chunked_message (codes "\n#6\n<rpc/>\n##\n" ++ codes "\n#1")
    ≡ ok (codes "<rpc/>", codes "\n#1")
read-write_chunked_example = read-write_chunked (codes "<rpc/>") (codes "\n#1") read-write_runs.0

read_chunked_message-Ensures_example :
    Ensures (Within 0 9) (read_chunked_message (codes "\n#1\nx\n##\n"))
read_chunked_message-Ensures_example = read_chunked_message-Ensures (codes "\n#1\nx\n##\n")

read-write_eom_example :
    read_eom_message (codes "<rpc/>]]>]]>" ++ codes "<x") ≡ ok (codes "<rpc/>", codes "<x")
unfolding write_eom_message has_suffix
read-write_eom_example = read-write_eom (codes "<rpc/>") (codes "<x") refl refl (omega arith)

read-write_eom_lossy_example :
    (out : Bytes) × (write_eom_message append_sink [] (codes "<a>" ++ codes "]]>") ≡ ok out)
    × (read_eom_message (out ++ codes "<x") ≡ ok (codes "<a>", codes "]]>" ++ codes "<x"))
unfolding contains starts_with
read-write_eom_lossy_example = read-write_eom_lossy (codes "<a>") (codes "<x") refl (omega arith)

read_eom_message_sound_example :
    (codes "<a>]]>]]><x" ≡ codes "<a>" ++ (eom_marker ++ codes "<x"))
    × (length (codes "<a>") + 6 ≤ 16777216)
unfolding read_eom_message
read_eom_message_sound_example = read_eom_message_sound (codes "<a>]]>]]><x") refl
