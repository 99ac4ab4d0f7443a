-- ===== src/Protocol/Itch5/Overlays.antt =====
-- crates/nf-protocol/src/itch5.rs: the overlays, which read the fields of one message type each. A view
-- reads all the fields of its overlay, each by its own indices; it is `none` where one of these is out of
-- bounds.
use hft_proj.Prelude.{
  ℕ, Bool, false, ◌||◌, not, Option, some, [], ◌∷◌, if◌then◌else◌, ◌==◌, length, Bytes, Result, ok,
  err,
}
use hft_proj.Protocol.Itch5.{
  ◌>>=◌, read_byte, read_be32, read_be64, read_slice, ItchError, length_mismatch, validate,
  CommonHeader, header,
}

-- `msg.first() != Some(&tag)`
abbrev pub starts_with : ℕ → Bytes → Bool
starts_with tag [] = false
starts_with tag (b ∷ bs) = b == tag

-- Another message is refused by `validate`, or as one of a wrong length.
abbrev refuse : (expected : ℕ) → Bytes → Result ItchError (Unit {0}) → Result ItchError Bytes
refuse expected msg (err e) = err e
refuse expected msg (ok u) = err (length_mismatch expected (length msg))

-- The body that the nine overlays' `parse` share.
unfoldable pub overlay : (tag expected : ℕ) → Bytes → Result ItchError Bytes
overlay tag expected msg =
    if not (length msg == expected) || not (starts_with tag msg)
    then refuse expected msg (validate msg)
    else ok msg

abbrev pub parse_system_event : Bytes → Result ItchError Bytes
parse_system_event = overlay b'S' 12

abbrev pub parse_stock_directory : Bytes → Result ItchError Bytes
parse_stock_directory = overlay b'R' 39

abbrev pub parse_add : Bytes → Result ItchError Bytes
parse_add = overlay b'A' 36

abbrev pub parse_add_attributed : Bytes → Result ItchError Bytes
parse_add_attributed = overlay b'F' 40

abbrev pub parse_executed : Bytes → Result ItchError Bytes
parse_executed = overlay b'E' 31

abbrev pub parse_executed_with_price : Bytes → Result ItchError Bytes
parse_executed_with_price = overlay b'C' 36

abbrev pub parse_cancel : Bytes → Result ItchError Bytes
parse_cancel = overlay b'X' 23

abbrev pub parse_delete : Bytes → Result ItchError Bytes
parse_delete = overlay b'D' 19

abbrev pub parse_replace : Bytes → Result ItchError Bytes
parse_replace = overlay b'U' 35

pub record SystemEvent : Type 0 where
  pub head : CommonHeader
  pub event_code : ℕ

abbrev pub view_system_event : Bytes → Option SystemEvent
view_system_event msg = do
  head ← header msg
  event_code ← read_byte msg 11
  some (record { head = head; event_code = event_code })

pub record StockDirectory : Type 0 where
  pub head : CommonHeader
  pub stock : Bytes
  pub market_category : ℕ
  pub financial_status : ℕ
  pub round_lot_size : ℕ
  pub round_lots_only : ℕ
  pub issue_classification : ℕ
  pub issue_sub_type : Bytes
  pub authenticity : ℕ
  pub short_sale_threshold : ℕ
  pub ipo_flag : ℕ
  pub luld_tier : ℕ
  pub etp_flag : ℕ
  pub etp_leverage : ℕ
  pub inverse_indicator : ℕ

abbrev pub view_stock_directory : Bytes → Option StockDirectory
view_stock_directory msg = do
  head ← header msg
  stock ← read_slice msg 11 19
  market_category ← read_byte msg 19
  financial_status ← read_byte msg 20
  round_lot_size ← read_be32 msg 21
  round_lots_only ← read_byte msg 25
  issue_classification ← read_byte msg 26
  issue_sub_type ← read_slice msg 27 29
  authenticity ← read_byte msg 29
  short_sale_threshold ← read_byte msg 30
  ipo_flag ← read_byte msg 31
  luld_tier ← read_byte msg 32
  etp_flag ← read_byte msg 33
  etp_leverage ← read_be32 msg 34
  inverse_indicator ← read_byte msg 38
  some (record {
    head = head;
    stock = stock;
    market_category = market_category;
    financial_status = financial_status;
    round_lot_size = round_lot_size;
    round_lots_only = round_lots_only;
    issue_classification = issue_classification;
    issue_sub_type = issue_sub_type;
    authenticity = authenticity;
    short_sale_threshold = short_sale_threshold;
    ipo_flag = ipo_flag;
    luld_tier = luld_tier;
    etp_flag = etp_flag;
    etp_leverage = etp_leverage;
    inverse_indicator = inverse_indicator;
  })

pub record Add : Type 0 where
  pub head : CommonHeader
  pub order_ref : ℕ
  pub side : ℕ
  pub shares : ℕ
  pub stock : Bytes
  pub price_raw : ℕ

abbrev add_fields : Bytes → Option Add
add_fields msg = do
  head ← header msg
  order_ref ← read_be64 msg 11
  side ← read_byte msg 19
  shares ← read_be32 msg 20
  stock ← read_slice msg 24 32
  price_raw ← read_be32 msg 32
  some (record {
    head = head;
    order_ref = order_ref;
    side = side;
    shares = shares;
    stock = stock;
    price_raw = price_raw;
  })

abbrev pub view_add : Bytes → Option Add
view_add msg = add_fields msg

pub record AddAttributed : Type 0 where
  pub add : Add
  pub mpid : Bytes

abbrev pub view_add_attributed : Bytes → Option AddAttributed
view_add_attributed msg = do
  add ← add_fields msg
  mpid ← read_slice msg 36 40
  some (record { add = add; mpid = mpid })

pub record Executed : Type 0 where
  pub head : CommonHeader
  pub order_ref : ℕ
  pub executed_shares : ℕ
  pub match_number : ℕ

abbrev executed_fields : Bytes → Option Executed
executed_fields msg = do
  head ← header msg
  order_ref ← read_be64 msg 11
  executed_shares ← read_be32 msg 19
  match_number ← read_be64 msg 23
  some (record {
    head = head;
    order_ref = order_ref;
    executed_shares = executed_shares;
    match_number = match_number;
  })

abbrev pub view_executed : Bytes → Option Executed
view_executed msg = executed_fields msg

pub record ExecutedWithPrice : Type 0 where
  pub executed : Executed
  pub printable : ℕ
  pub price_raw : ℕ

abbrev pub view_executed_with_price : Bytes → Option ExecutedWithPrice
view_executed_with_price msg = do
  executed ← executed_fields msg
  printable ← read_byte msg 31
  price_raw ← read_be32 msg 32
  some (record { executed = executed; printable = printable; price_raw = price_raw })

pub record Cancel : Type 0 where
  pub head : CommonHeader
  pub order_ref : ℕ
  pub canceled_shares : ℕ

abbrev pub view_cancel : Bytes → Option Cancel
view_cancel msg = do
  head ← header msg
  order_ref ← read_be64 msg 11
  canceled_shares ← read_be32 msg 19
  some (record { head = head; order_ref = order_ref; canceled_shares = canceled_shares })

pub record Delete : Type 0 where
  pub head : CommonHeader
  pub order_ref : ℕ

abbrev pub view_delete : Bytes → Option Delete
view_delete msg = do
  head ← header msg
  order_ref ← read_be64 msg 11
  some (record { head = head; order_ref = order_ref })

pub record Replace : Type 0 where
  pub head : CommonHeader
  pub orig_order_ref : ℕ
  pub new_order_ref : ℕ
  pub shares : ℕ
  pub price_raw : ℕ

abbrev pub view_replace : Bytes → Option Replace
view_replace msg = do
  head ← header msg
  orig_order_ref ← read_be64 msg 11
  new_order_ref ← read_be64 msg 19
  shares ← read_be32 msg 27
  price_raw ← read_be32 msg 31
  some (record {
    head = head;
    orig_order_ref = orig_order_ref;
    new_order_ref = new_order_ref;
    shares = shares;
    price_raw = price_raw;
  })
