-- ===== src/UserWs/Messages.antt =====
-- user_ws.rs: the messages of the SDK, with the fields that the code reads, and the credentials. A
-- decimal is the text that `to_string` gives.
use polymarket_watch_rust.Base.Chars.{is_blank_text}
use polymarket_watch_rust.Base.Int.{ℤ}
use polymarket_watch_rust.Base.Outcome.{Result, config, fail_if, ok, ok_or, ◌>>=◌, ◌>>◌}
use polymarket_watch_rust.Base.Tests.{List, Option, String, ◌||◌}
use polymarket_watch_rust.Fixed.Text.{Text}

pub data ApiSide : Type 0 where
  buy sell other : ApiSide

pub data ApiTraderSide : Type 0 where
  taker maker other : ApiTraderSide
  unknown : String → ApiTraderSide

pub data ApiOrderMessageType : Type 0 where
  placement update cancellation other : ApiOrderMessageType
  unknown : String → ApiOrderMessageType

pub record OrderMessage : Type 0 where
  pub id : String
  pub market : String
  pub asset_id : String
  pub side : ApiSide
  pub price : Text
  pub original_size : Option Text
  pub size_matched : Option Text
  pub msg_type : Option ApiOrderMessageType
  pub status : Option String
  pub owner : Option String
  pub order_owner : Option String
  pub timestamp : Option ℤ

pub record MakerOrder : Type 0 where
  pub order_id : String
  pub owner : String
  pub asset_id : String
  pub price : Text
  pub matched_amount : Text

pub record TradeMessage : Type 0 where
  pub id : String
  pub market : String
  pub asset_id : String
  pub side : ApiSide
  pub price : Text
  pub size : Text
  pub status : String
  pub trader_side : Option ApiTraderSide
  pub owner : Option String
  pub trade_owner : Option String
  pub taker_order_id : Option String
  pub maker_orders : List MakerOrder
  pub timestamp : Option ℤ
  pub matchtime : Option ℤ

pub data WsMessage : Type 0 where
  order : OrderMessage → WsMessage
  trade : TradeMessage → WsMessage
  other : WsMessage

-- `UserWsAuth`, with the parsers of the uuid and address crates as arguments of `new`.
pub record UserWsAuth : Type 0 where
  pub api_key : String
  pub api_secret : String
  pub api_passphrase : String
  pub address : String

unfoldable pub new_auth :
    (String → Option String)
    → (String → Option String)
    → String
    → String
    → String
    → String
    → Result UserWsAuth
new_auth parse_uuid parse_address api_key api_secret api_passphrase address = do
  fail_if (is_blank_text api_secret || is_blank_text api_passphrase)
      (config "user_ws_credentials_missing")
  key ← ok_or (parse_uuid api_key) (config "user_ws_api_key_invalid")
  parsed ← ok_or (parse_address address) (config "user_ws_address_invalid")
  ok (record {
    api_key = key;
    api_secret = api_secret;
    api_passphrase = api_passphrase;
    address = parsed;
  })
