-- ===== src/Okx/Queries.antt =====
-- `QueryOrderById`, `FetchAllInstruments`, `ParseLoginResponse` and the signed request of
-- src/clients/okx/okx.cpp. The exchange is a function from the path of a request to the body that
-- `HttpsRequest` returns.
pub mod Answers
use crypto_trading_system.Prelude.{
  ℕ, ◌%◌, ◌^◌, ◌-◌, [], ◌∷◌, ◌++◌, List, Bool, true, false, ◌&&◌, Option, none, some, Text, text_eq,
  codes, ℤ, pos, negsuc, ltb, is_empty, get_or_else, bind, ◌==◌, if◌then◌else◌,
}
use crypto_trading_system.Prelude.Int.{sub_ℕ}
use crypto_trading_system.Prelude.Map
use crypto_trading_system.Prelude.Map.{Map}
use crypto_trading_system.Defs.{ExecutionReport, InstrumentInfo, set_field, c_str}
use crypto_trading_system.Double.{Double}
use crypto_trading_system.Json.{Json, text_or_empty}
use crypto_trading_system.Registry
use crypto_trading_system.Registry.{InstrumentRegistry}
use crypto_trading_system.Utils.{count_decimal_places}
use crypto_trading_system.Okx.Orders.{queried_order}
use crypto_trading_system.Okx.Replies.{reply_data}

-- The keys of `ExchangeConfig`.
pub record Credentials : Type 0 where
  pub api_key : Text
  pub secret_key : Text
  pub passphrase : Text

-- The headers of a signed request, for `HmacSha256Sign` and a timestamp.
unfoldable pub signed_headers : (Text → Text → Text) → Credentials → Text → Text → Text
signed_headers sign config timestamp path =
    codes "OK-ACCESS-KEY: "
    ++ config.api_key
    ++ codes "\r\nOK-ACCESS-SIGN: "
    ++ sign config.secret_key (timestamp ++ codes "GET" ++ path)
    ++ codes "\r\nOK-ACCESS-TIMESTAMP: "
    ++ timestamp
    ++ codes "\r\nOK-ACCESS-PASSPHRASE: "
    ++ config.passphrase
    ++ codes "\r\n"

-- `BuildLoginMessage`, for the time in seconds.
unfoldable pub build_login_message : (Text → Text → Text) → Credentials → Text → Text
build_login_message sign config timestamp =
    codes "{\"op\":\"login\",\"args\":[{\"apiKey\":\""
    ++ config.api_key
    ++ codes "\",\"passphrase\":\""
    ++ config.passphrase
    ++ codes "\",\"timestamp\":\""
    ++ timestamp
    ++ codes "\",\"sign\":\""
    ++ sign config.secret_key (timestamp ++ codes "GET" ++ codes "/users/self/verify")
    ++ codes "\"}]}"

-- `BuildSubscribeMessage` and `BuildPrivateSubscribeMessage`.
unfoldable pub build_subscribe_message : Text → Text → Text
build_subscribe_message channel instrument =
    codes "{\"op\":\"subscribe\",\"args\":[{\"channel\":\""
    ++ channel
    ++ codes "\",\"instId\":\""
    ++ instrument
    ++ codes "\"}]}"

unfoldable pub build_private_subscribe_message : Text → Text → Text
build_private_subscribe_message channel inst_type =
    codes "{\"op\":\"subscribe\",\"args\":[{\"channel\":\""
    ++ channel
    ++ codes "\",\"instType\":\""
    ++ inst_type
    ++ codes "\"}]}"

-- `static_cast<int>` of an `int64_t`, on its low 32 bits.
abbrev pub int_of_int64 : ℤ → ℤ
int_of_int64 (pos n) =
    let low = n % 2 ^ 32 in if ltb low (2 ^ 31) then pos low else sub_ℕ low (2 ^ 32)
int_of_int64 (negsuc n) =
    let low = n % 2 ^ 32 in if ltb low (2 ^ 31) then negsuc low else sub_ℕ (2 ^ 32 - 1) low

-- What `FetchAllInstruments` fills: `inst_id_codes_` and the registry.
pub record Instruments : Type 0 where
  pub inst_id_codes : Map Text ℤ
  pub registry : InstrumentRegistry

module _ {J D : Type 0} (json : Json J D) where
  -- `ParseLoginResponse`
  unfoldable pub parse_login_response : Text → Bool
  parse_login_response response = elim (json.parse response) [
    | none ↦ false
    | some doc ↦
        text_or_empty json (codes "event") doc == codes "login"
        && text_or_empty json (codes "code") doc == codes "0"
  ]

  -- What is taken of one instrument.
  abbrev pub instrument_info : Text → J → InstrumentInfo
  instrument_info inst_id element = record {
    instrument = set_field 32 inst_id;
    price_precision = count_decimal_places (c_str (text_or_empty json (codes "tickSz") element));
    volume_precision = count_decimal_places (c_str (text_or_empty json (codes "lotSz") element));
  }

  unfoldable pub add_instrument : Option J → Instruments → Instruments
  add_instrument none known = known
  add_instrument (some element) known =
      let inst_id = text_or_empty json (codes "instId") element in
      if is_empty inst_id then known else record {
        inst_id_codes =
            Map.assign inst_id
              (int_of_int64 (get_or_else (pos 0) (json.int_at (codes "instIdCode") element)))
              known.inst_id_codes;
        registry = Registry.add known.registry (instrument_info inst_id element);
      }

  unfoldable pub add_instruments : List (Option J) → Instruments → Instruments
  unfolding add_instrument
  add_instruments [] known = known
  add_instruments (element ∷ elements) known =
      add_instruments elements (add_instrument element known)

  -- The instruments of one type; a query that fails changes nothing.
  abbrev pub fetch_instruments : (Text → Text) → Text → Instruments → Instruments
  fetch_instruments exchange inst_type known =
      add_instruments
        (get_or_else []
          (reply_data json (exchange (codes "/api/v5/public/instruments?instType=" ++ inst_type))))
        known

  unfoldable pub fetch_all_instruments : (Text → Text) → Instruments → Instruments
  unfolding add_instruments reply_data
  fetch_all_instruments exchange known =
      fetch_instruments exchange (codes "SWAP") (fetch_instruments exchange (codes "SPOT") known)

-- The first element decides: an error, or an instrument that is not registered, is a failure.
abbrev pub first_element : {J : Type 0} → Option (List (Option J)) → Option J
first_element (some (some element ∷ elements)) = some element
first_element _ = none

abbrev pub order_path : Text → Text → Text
order_path instrument order_id =
    codes "/api/v5/trade/order?instId=" ++ (instrument ++ (codes "&ordId=" ++ order_id))

module _ {J D : Type 0} ⦃d : Double D⦄ (json : Json J D) (registry : InstrumentRegistry) where
  -- `QueryOrderById`: the report and the client order id that it sets, or `none` for `false`.
  unfoldable pub query_order_by_id : (Text → Text) → Text → Text → Option (ExecutionReport D × Text)
  unfolding queried_order reply_data
  query_order_by_id exchange instrument order_id =
      bind (first_element (reply_data json (exchange (order_path instrument order_id))))
        (queried_order json registry)
