-- ===== src/Protocol/Moldudp64/Frames.antt =====
-- crates/nf-protocol/src/moldudp64.rs: whole frames through `parse_header`, `parse` and
-- `encode_request`.
use hft_proj.Prelude.{
  ℕ, suc, ◌+◌, ◌-◌, ◌<◌, ◌≤◌, ◌≡◌, refl, sym, ◌∙◌, List, [], ◌++◌, arith, length, All, slice, take,
  drop, Bytes, IsByte, IsBytes, to_be16, to_be64, byte_at, be16_at, be64_at, get_or-append,
  take-append, drop-append, length-append, append_assoc, append-nil, u64, ok, some, All-drop,
  take-append-drop,
}
use hft_proj.Protocol.Moldudp64.{
  Header, parse, parse_header, parse_body, parse_data, parse_bare, data_frame, encode_request,
  skip_blocks, collect, MessageBlocks, new_blocks, span,
}
use hft_proj.Protocol.Moldudp64.Wire.{
  encode_blocks, encode_header, encode_frame, Fits, be16-to_be16, be64-to_be64,
  length-encode_header,
}
use hft_proj.Protocol.Moldudp64.Blocks.{
  skip_blocks-encode, skip_blocks_sound, collect-encode, numbered,
}

-- The fields behind a ten-byte session.
pub fields_behind :
    (session xs : Bytes)
    → length session ≡ 10
    → (be64_at (session ++ xs) 10 ≡ be64_at xs 0) × (be16_at (session ++ xs) 18 ≡ be16_at xs 8)
fields_behind session xs h = (rw (at 0, at 1, at 2, at 3, at 4, at 5, at 6, at 7), rw (at 8, at 9))
  where
    at : (k : ℕ) → byte_at (session ++ xs) (10 + k) ≡ byte_at xs k
    at k = get_or-append session xs (10 + k) k 0 (omega arith)

-- The three fields of a header are read back from its wire form, whatever follows it.
pub parse_header-encode :
    (session : Bytes) (seq count : ℕ) (body : Bytes)
    → length session ≡ 10
    → seq < u64
    → count < 65536
    → parse_header (encode_header session seq count ++ body)
      ≡ ok (record { session = session; seq = seq; count = count })
unfolding parse_header encode_header
parse_header-encode session seq count body h hs hc =
    let xs : Bytes = to_be64 seq ++ (to_be16 count ++ body) in
    let f = fields_behind session xs h in
    rw
      (
        append_assoc session (to_be64 seq ++ to_be16 count) body,
        take-append session xs 10 h,
        f.0,
        f.1,
        be64-to_be64 seq (to_be16 count ++ body) hs,
        be16-to_be16 count hc,
      )
      (ground (arith, length-append session xs))

-- The retransmission request that `encode_request` writes is 20 bytes, and `parse_header` reads back
-- its session, first sequence number and count.
pub parse_header-encode_request :
    (session : Bytes) (from count : ℕ)
    → length session ≡ 10
    → from < u64
    → count < 65536
    → (length (encode_request session from count) ≡ 20)
      × (parse_header (encode_request session from count)
          ≡ ok (record { session = session; seq = from; count = count }))
unfolding encode_request encode_header
parse_header-encode_request session from count h hs hc = (
  length-encode_header session from count h,
  rw (append-nil) at (parse_header-encode session from count [] h hs hc),
)

parse_data-encode :
    (front : Bytes) (ms : List Bytes) (hdr : Header)
    → length front ≡ 20
    → hdr.count ≡ length ms
    → All Fits ms
    → parse_data (front ++ encode_blocks ms) hdr
      ≡ ok (data_frame hdr (new_blocks (encode_blocks ms) hdr.seq hdr.count))
unfolding parse_data
parse_data-encode front ms hdr h n f =
    let cut : drop 20 (front ++ encode_blocks ms) ≡ encode_blocks ms =
      drop-append front (encode_blocks ms) 20 h in
    let sk : skip_blocks (encode_blocks ms) (length ms) ≡ ok [] =
      rw append-nil at (skip_blocks-encode ms [] f) in
    ground (arith, cut, sk)

-- Every list of messages, framed by the grammar with a session of ten bytes and a span that fits 64
-- bits, is accepted by `parse`, and the iterator that `parse` returns yields these messages in order
-- with consecutive sequence numbers.
pub parse-encode_frame :
    (session : Bytes) (seq : ℕ) (ms : List Bytes)
    → length session ≡ 10
    → 0 < length ms
    → length ms < 65535
    → seq + length ms ≤ u64
    → All Fits ms
    → (it : MessageBlocks) × (parse (encode_frame session seq ms)
        ≡ ok (data_frame (record { session = session; seq = seq; count = length ms }) it))
      × (collect (suc (length ms)) it ≡ some (numbered seq ms))
unfolding parse parse_body encode_frame new_blocks
parse-encode_frame session seq ms h pos small room f =
    let hdr : Header = record { session = session; seq = seq; count = length ms } in
    let front : Bytes = encode_header session seq (length ms) in
    (
      new_blocks (encode_blocks ms) seq (length ms),
      ground (
        arith,
        parse_header-encode session seq (length ms) (encode_blocks ms) h,
        parse_data-encode front ms hdr (length-encode_header session seq (length ms) h) refl f,
        length-append front (encode_blocks ms),
        length-encode_header session seq (length ms) h,
      ),
      rw append-nil at (collect-encode ms [] [] seq f),
    )

-- The inversion of a parsed data frame.
parse_data_ok :
    (buf : Bytes) (hdr hdr' : Header) (it : MessageBlocks)
    → parse_data buf hdr ≡ ok (data_frame hdr' it)
    → (skip_blocks (drop 20 buf) hdr.count ≡ ok [])
      × (hdr' ≡ hdr)
      × (it ≡ new_blocks (drop 20 buf) hdr.seq hdr.count)
unfolding parse_data
parse_data_ok buf hdr hdr' it e = ground arith

pub parse_ok :
    (buf : Bytes) (hdr : Header) (it : MessageBlocks)
    → parse buf ≡ ok (data_frame hdr it)
    → (parse_header buf ≡ ok hdr)
      × (span hdr ≡ some (hdr.seq, hdr.seq + (hdr.count - 1)))
      × (skip_blocks (drop 20 buf) hdr.count ≡ ok [])
      × (it ≡ new_blocks (drop 20 buf) hdr.seq hdr.count)
unfolding parse parse_header parse_body parse_bare span
parse_ok buf hdr it e =
    let h0 : Header = record {
      session = slice buf 0 10;
      seq = be64_at buf 10;
      count = be16_at buf 18;
    } in
    ground (arith, parse_data_ok buf h0 hdr it)

-- A data frame that `parse` accepts has a header and, behind it, nothing but well-formed blocks, as
-- many as its count; its span fits 64 bits; and its iterator yields just these blocks, in order and
-- numbered from the header's sequence number, without a panic.
pub parse_sound :
    (buf : Bytes) (hdr : Header) (it : MessageBlocks)
    → IsBytes buf
    → parse buf ≡ ok (data_frame hdr it)
    → (ms : List Bytes) × (buf ≡ take 20 buf ++ encode_blocks ms)
      × (parse_header buf ≡ ok hdr)
      × (length ms ≡ hdr.count)
      × All Fits ms
      × (span hdr ≡ some (hdr.seq, hdr.seq + (hdr.count - 1)))
      × (collect (suc hdr.count) it ≡ some (numbered hdr.seq ms))
unfolding new_blocks
parse_sound buf hdr it b e =
    let (ph, sp, sk, eq) = parse_ok buf hdr it e in
    let (ms, body, n, f) =
      skip_blocks_sound hdr.count (drop 20 buf) [] (All-drop IsByte 20 buf b) sk in
    let body' : drop 20 buf ≡ encode_blocks ms = body ∙ append-nil (encode_blocks ms) in
    (
      ms,
      rw (← body') (sym (take-append-drop 20 buf)),
      ph,
      n,
      f,
      sp,
      rw (eq, ← n, body) (collect-encode ms [] [] hdr.seq f),
    )
