-- ===== src/Protocol/Examples.antt =====
-- crates/nf-protocol: one frame with one system event, and the codec's theorems at it.
use hft_proj.Prelude.{
  add64, ◌+◌, ◌-◌, ◌≤◌, ◌≡◌, ◌≢◌, ◌↔◌, refl, Bool, true, ◌&&◌, none, some, List, [], ◌∷◌, ◌++◌,
  arith, length, All, take, drop, Bytes, IsBytes, ltb, ok,
}
use hft_proj.Protocol.Moldudp64.{
  Header, MessageBlocks, data_frame, parse, parse_header, parse_body, parse_data, skip_blocks, span,
  collect, encode_request, new_blocks,
}
use hft_proj.Protocol.Moldudp64.Wire.{encode_blocks, encode_header, encode_frame, Fits}
use hft_proj.Protocol.Moldudp64.Blocks.{numbered}
use hft_proj.Protocol.Moldudp64.Frames.{
  parse_header-encode_request, parse-encode_frame, parse_sound,
}
use hft_proj.Protocol.Itch5.{msg_len, validate, length_of}
use hft_proj.Protocol.Itch5.Table.{
  msg_len_iff, wire_table, is_listed, IsListed, validate_iff, validate_bounds,
}
use hft_proj.Protocol.Itch5.Overlays.{
  parse_replace, parse_delete, parse_cancel, parse_executed_with_price, parse_executed,
  parse_add_attributed, parse_add, parse_stock_directory, parse_system_event,
}
use hft_proj.Protocol.Itch5.Accepted.{Accepts, InBounds, overlays_iff, overlays-InBounds}
use hft_proj.Protocol.Packet.{
  ingest_walk, walk_from, validate_frame, visit, continue, has_block, block_end,
}
use hft_proj.Protocol.Packet.Walk.{run_all, ingest_walk-encode_frame}
use hft_proj.Protocol.Packet.Verdict.{
  check, outcome, validate_frame-eq-ingest_walk, parse-ingest_walk,
}

-- A system event: type `S`, and eleven bytes more.
abbrev pub event_msg : Bytes
event_msg = 83 ∷ 0 ∷ 0 ∷ 0 ∷ 0 ∷ 0 ∷ 0 ∷ 0 ∷ 0 ∷ 0 ∷ 7 ∷ 79 ∷ []

abbrev pub one_msg : List Bytes
one_msg = event_msg ∷ []

abbrev pub some_session : Bytes
some_session = 65 ∷ 65 ∷ 65 ∷ 65 ∷ 65 ∷ 65 ∷ 65 ∷ 65 ∷ 65 ∷ 66 ∷ []

abbrev pub one_frame : Bytes
one_frame = encode_frame some_session 5 one_msg

abbrev pub one_header : Header
one_header = record { session = some_session; seq = 5; count = 1 }

abbrev is_bytes : Bytes → Bool
is_bytes [] = true
is_bytes (b ∷ bs) = ltb b 256 && is_bytes bs

pub is_bytes_sound : (bs : Bytes) → is_bytes bs ≡ true → IsBytes bs
is_bytes_sound [] h = tt
is_bytes_sound (b ∷ bs) h = (ground arith, is_bytes_sound bs (ground arith))

pub one_frame-IsBytes : IsBytes one_frame
unfolding encode_frame encode_header encode_blocks
one_frame-IsBytes = is_bytes_sound one_frame refl

pub one_msg-Fits : All Fits one_msg
one_msg-Fits = (omega arith, tt)

pub one_blocks : MessageBlocks
one_blocks = new_blocks (drop 20 one_frame) 5 1

pub one_frame_parsed : parse one_frame ≡ ok (data_frame one_header one_blocks)
unfolding one_blocks parse parse_body parse_data parse_header skip_blocks span encode_frame
    encode_header encode_blocks new_blocks
one_frame_parsed = refl

one_frame_walked : (ingest_walk one_frame check 5 1 0 tt).0 ≡ ok tt
unfolding ingest_walk walk_from visit continue has_block block_end validate length_of encode_frame
    encode_header encode_blocks
one_frame_walked = refl

one_header_read : parse_header one_frame ≡ ok one_header
unfolding parse_header encode_frame encode_header encode_blocks
one_header_read = refl

one_span : span one_header ≢ none
unfolding span
one_span = λ e. cc

event_length : length_of 83 ≡ 12
unfolding length_of
event_length = refl

parse_header-encode_request_example :
    (length (encode_request some_session 5 100) ≡ 20)
    × (parse_header (encode_request some_session 5 100)
        ≡ ok (record { session = some_session; seq = 5; count = 100 }))
parse_header-encode_request_example =
    parse_header-encode_request some_session 5 100 refl (omega arith) (omega arith)

parse-encode_frame_example :
    (it : MessageBlocks) × (parse one_frame ≡ ok (data_frame one_header it))
    × (collect 2 it ≡ some (numbered 5 one_msg))
parse-encode_frame_example =
    parse-encode_frame some_session 5 one_msg refl (omega arith) (omega arith) (omega arith)
      one_msg-Fits

parse_sound_example :
    (ms : List Bytes) × (one_frame ≡ take 20 one_frame ++ encode_blocks ms)
    × (parse_header one_frame ≡ ok one_header)
    × (length ms ≡ 1)
    × All Fits ms
    × (span one_header ≡ some (5, 5 + (1 - 1)))
    × (collect 2 one_blocks ≡ some (numbered 5 ms))
parse_sound_example = parse_sound one_frame one_header one_blocks one_frame-IsBytes one_frame_parsed

validate_iff_example : (validate event_msg ≡ ok tt) ↔ IsListed event_msg
validate_iff_example = validate_iff event_msg

msg_len_iff_example : (msg_len b'S' ≡ some 12) ↔ (is_listed b'S' 12 wire_table ≡ true)
msg_len_iff_example = msg_len_iff b'S' 12

event_valid : validate event_msg ≡ ok tt
unfolding validate length_of
event_valid = refl

validate_bounds_example : (12 ≤ length event_msg) × (length event_msg ≤ 50)
validate_bounds_example = validate_bounds event_msg event_valid

overlays_iff_example :
    Accepts parse_system_event b'S' event_msg
    × Accepts parse_stock_directory b'R' event_msg
    × Accepts parse_add b'A' event_msg
    × Accepts parse_add_attributed b'F' event_msg
    × Accepts parse_executed b'E' event_msg
    × Accepts parse_executed_with_price b'C' event_msg
    × Accepts parse_cancel b'X' event_msg
    × Accepts parse_delete b'D' event_msg
    × Accepts parse_replace b'U' event_msg
overlays_iff_example = overlays_iff event_msg

overlays-InBounds_example : InBounds event_msg event_msg
overlays-InBounds_example = overlays-InBounds event_msg event_msg

abbrev two_msgs : List Bytes
two_msgs = event_msg ∷ event_msg ∷ []

ingest_walk-encode_frame_example :
    ingest_walk (encode_frame some_session 5 two_msgs) check 5 2 1 tt
    ≡ run_all check (add64 5 1) (drop 1 two_msgs) tt
ingest_walk-encode_frame_example =
    ingest_walk-encode_frame check some_session 5 1 two_msgs tt refl
      (omega arith, (omega arith, tt)) (omega arith)

validate_frame-eq-ingest_walk_example :
    validate_frame one_frame
    ≡ some (outcome (data_frame one_header one_blocks) (ingest_walk one_frame check 5 1 0 tt).0)
validate_frame-eq-ingest_walk_example =
    validate_frame-eq-ingest_walk one_frame one_header one_blocks one_frame-IsBytes one_frame_parsed

parse-ingest_walk_example :
    parse one_frame ≡ ok (data_frame one_header (new_blocks (drop 20 one_frame) 5 1))
parse-ingest_walk_example =
    parse-ingest_walk one_frame check one_header 0 tt one_header_read one_span one_frame_walked
