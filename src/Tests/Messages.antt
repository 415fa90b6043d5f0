-- ===== src/Tests/Messages.antt =====
-- The theorems about decoders, bodies and connections at concrete inputs.
use crypto_trading_system.Prelude.{
  ℕ, zero, suc, ◌≡◌, ◌≤◌, ◌+◌, ◌^◌, refl, sym, ap, ◌∙◌, Bool, ℤ, pos, true, false, [], ◌∷◌, ◌++◌,
  List, map, Option, none, some, Text, text_eq, text_eqb, text_eqb_iff, ◌==◌, length-append,
  Bool-cases, inl, inr, codes, is_some, arith, length, get_or, take, drop, if◌then◌else◌, ltb,
}
use mathlib.Core.Option
use crypto_trading_system.Prelude.Map
use crypto_trading_system.Defs.{Depth, Ticker, set_field, detect_market_type}
use crypto_trading_system.Double.Whole.{whole_double}
use crypto_trading_system.Utils.{encode}
use crypto_trading_system.Json.{Json, text_or_empty, elements_at}
use crypto_trading_system.TradingEngine.Orders.{IsAnswering}
use crypto_trading_system.Okx.{okx_parse_inst_type}
use crypto_trading_system.Okx.Orders.{pending_order, queried_order, decode_order_update}
use crypto_trading_system.Okx.Replies.{reply_data}
use crypto_trading_system.Okx.Market.{decode_depth, decode_ticker}
use crypto_trading_system.Okx.Market.Bounds.{readable, decode_depth-levels}
use crypto_trading_system.Okx.Market.Stale.{decode_ticker-stale}
use crypto_trading_system.Okx.Queries.{query_order_by_id, order_path, first_element}
use crypto_trading_system.Okx.Queries.Answers.{
  query_order_by_id-IsAnswering, order_readers-agree, without_fee,
}
use crypto_trading_system.Https.{
  decode_chunks, strtoul_16, signed_hex, skip_0x, skip_space, hex_value, hex_digit,
}
use crypto_trading_system.Https.Rounds.{hex_number}
use crypto_trading_system.Https.Chunks.{
  Chunk, IsChunk, chunked_text, last_chunk, decode_chunks-chunked,
}
use crypto_trading_system.Https.Endless.{
  decode_chunks-returns, decode_chunks-endless, wrapping_line,
}
use crypto_trading_system.Exchange.{
  Phase, PublicState, PublicEvent, subscription, run_public, started,
}
use crypto_trading_system.Exchange.Subscribed.{IsSubscribed, run_public-IsSubscribed}
use crypto_trading_system.Exchange.Silence.{
  left_silent, made_again, turns, without_pongs, silence-reconnects, talk-heard,
}
use crypto_trading_system.WebSocket.{read, Ending}
use crypto_trading_system.WebSocket.Endings.{read-ends}
use crypto_trading_system.WebSocket.Reading.{server_frame, ping_frames, pongs, read-pings}
use crypto_trading_system.Tests.{pair, pair_info, one_instrument}
use crypto_trading_system.Tests.Documents.{Value, word_at, number_at, elements_of, documents}

abbrev no_documents : Json Value ℤ
no_documents = documents 0 [] []

abbrev message : Value
message = Value.entry (record {
  words =
      (codes "instId", pair)
      ∷ (codes "ordId", codes "7")
      ∷ (codes "clOrdId", codes "c")
      ∷ (codes "state", codes "live")
      ∷ [];
  numbers =
      (codes "last", pos 2)
      ∷ (codes "lastSz", pos 3)
      ∷ (codes "fee", pos 1)
      ∷ (codes "fillFee", pos 4)
      ∷ [];
  levels = (codes "asks", (pos 5 ∷ pos 6 ∷ pos 0 ∷ pos 7 ∷ []) ∷ (pos 8 ∷ []) ∷ []) ∷ [];
})

decode_depth-levels_example :
    (depth : Depth) × (decode_depth no_documents one_instrument pair message ≡ some depth)
    × (depth.asks
        ≡ take 5 (
            readable no_documents one_instrument pair_info
              (elements_at no_documents (codes "asks") message)))
    × (depth.bids
        ≡ take 5 (
            readable no_documents one_instrument pair_info
              (elements_at no_documents (codes "bids") message)))
    × (depth.ask_levels ≡ length depth.asks)
    × (depth.bid_levels ≡ length depth.bids)
    × (depth.ask_levels ≤ 5)
    × (depth.bid_levels ≤ 5)
unfolding set_field Map.find text_eqb
decode_depth-levels_example =
    decode_depth-levels no_documents one_instrument pair message pair_info refl

decode_ticker-stale_example :
    (ticker : Ticker ℤ) × (decode_ticker no_documents one_instrument pair message ≡ some ticker)
    × (ticker.bid_price ≡ encode (pos 3) 0)
    × (ticker.bid_volume ≡ encode (pos 3) 0)
unfolding set_field Map.find text_eqb number_at
decode_ticker-stale_example =
    decode_ticker-stale no_documents one_instrument pair message pair_info (pos 3) refl refl refl
      refl

order_readers-agree_example :
    (Option.map without_fee (queried_order no_documents one_instrument message)
      ≡ Option.map without_fee (decode_order_update no_documents one_instrument message))
    × (Option.map without_fee (queried_order no_documents one_instrument message)
        ≡ Option.map
            (λ i. without_fee (i.report, i.client_order_id))
            (pending_order no_documents one_instrument (codes "SPOT") message))
unfolding okx_parse_inst_type detect_market_type word_at Map.find text_eqb
order_readers-agree_example =
    order_readers-agree no_documents one_instrument message (codes "SPOT") refl

-- The exchange holds an order "7" of the instrument, and answers no other query.
abbrev answering : Json Value ℤ
answering = documents 0 [] (message ∷ [])

abbrev path_of_7 : Text
path_of_7 = order_path pair (codes "7")

abbrev one_answer : Text → Text
one_answer path = if text_eqb path path_of_7 then codes "{" else []

-- No other query has the same path.
only_7 :
    (instrument id : Text)
    → instrument ++ (codes "&ordId=" ++ id) ≡ codes "A-B&ordId=7"
    → id ≡ codes "7"
only_7 [] id e = absurd (omega (arith, ap (λ (t : Text). get_or t 0 0) e))
only_7 (a ∷ []) id e = absurd (omega (arith, ap (λ (t : Text). get_or t 1 0) e))
only_7 (a ∷ b ∷ []) id e = absurd (omega (arith, ap (λ (t : Text). get_or t 2 0) e))
only_7 (a ∷ b ∷ c ∷ []) id e = ap (drop 10) e
only_7 (a ∷ b ∷ c ∷ d ∷ []) id e = absurd (omega (arith, ap (λ (t : Text). get_or t 4 0) e))
only_7 (a ∷ b ∷ c ∷ d ∷ f ∷ instrument) id e =
    absurd (
      omega
        (arith, ap (λ (t : Text). length t) e, length-append instrument (codes "&ordId=" ++ id)))

abbrev read_answer : Text → Option Value
read_answer raw = first_element (reply_data answering raw)

some-eq : {v w : Value} → some v ≡ some w → v ≡ w
some-eq e = cc

none-ne : {v : Value} → none ≡ some v → ⊥
none-ne e = cc

one_answer-names :
    (instrument id : Text) (order : Value)
    → first_element (reply_data answering (one_answer (order_path instrument id))) ≡ some order
    → set_field 32 (text_or_empty answering (codes "ordId") order) ≡ id
unfolding reply_data elements_of text_eqb word_at set_field
one_answer-names instrument id order h =
    elim (Bool-cases (text_eqb (order_path instrument id) path_of_7)) [
      | inl same ↦
          let id_is_7 =
            only_7 instrument id
              (ap (drop 27) ((text_eqb_iff (order_path instrument id) path_of_7).0 same)) in
          let answer : message ≡ order =
            some-eq (ap (λ b. read_answer (if b then codes "{" else [])) (sym same) ∙ h) in
          ap (λ v. set_field 32 (text_or_empty answering (codes "ordId") v)) (sym answer)
          ∙ sym id_is_7
      | inr other ↦
          absurd (none-ne (ap (λ b. read_answer (if b then codes "{" else [])) (sym other) ∙ h))
    ]

query_order_by_id-IsAnswering_example :
    IsAnswering one_instrument (query_order_by_id answering one_instrument one_answer)
query_order_by_id-IsAnswering_example =
    query_order_by_id-IsAnswering answering one_instrument one_answer one_answer-names

abbrev abc : Chunk
abc = record { digit = 0; digits = 3 ∷ []; content = codes "abc" }

abc-IsChunk : IsChunk abc
unfolding hex_number
abc-IsChunk = ((omega arith, (omega arith, tt)), refl, omega arith)

decode_chunks-chunked_example :
    decode_chunks 3 (chunked_text (abc ∷ abc ∷ []) ++ (last_chunk ++ codes "\r\n")) 0 []
    ≡ some (codes "abcabc")
decode_chunks-chunked_example =
    decode_chunks-chunked (abc ∷ abc ∷ []) (codes "\r\n") 3 (abc-IsChunk, (abc-IsChunk, tt))
      (omega arith) (omega arith)

drop_nil : (n : ℕ) → drop {A = ℕ} n [] ≡ []
drop_nil zero = refl
drop_nil (suc n) = refl

short_body-sizes : (p : ℕ) → strtoul_16 (drop p (codes "1\r\nab")) + 5 + 4 ≤ 2 ^ 64
unfolding strtoul_16 signed_hex skip_0x skip_space hex_value hex_digit
short_body-sizes zero = omega arith
short_body-sizes (suc zero) = omega arith
short_body-sizes (suc (suc zero)) = omega arith
short_body-sizes (suc (suc (suc zero))) = omega arith
short_body-sizes (suc (suc (suc (suc zero)))) = omega arith
short_body-sizes (suc (suc (suc (suc (suc p))))) = rw (drop_nil p) (omega arith)

decode_chunks-returns_example :
    (decoded : Text) × (decode_chunks 6 (codes "1\r\nab") 0 [] ≡ some decoded)
decode_chunks-returns_example =
    decode_chunks-returns (codes "1\r\nab") short_body-sizes 6 (omega arith)

decode_chunks-endless_example :
    decode_chunks 1000 (chunked_text (abc ∷ []) ++ (wrapping_line ++ codes "x")) 0 [] ≡ none
decode_chunks-endless_example =
    decode_chunks-endless abc [] (codes "x") 1000 (abc-IsChunk, tt) (omega arith) (omega arith)

abbrev told : Text → Text → Text
told channel instrument = channel ++ instrument

abbrev is_bad : Text → Bool
is_bad raw = raw == codes "bad"

-- A subscription before the connection, one while it is made, one while the loop listens, and a
-- connection that fails and is made again.
abbrev day : List PublicEvent
day =
    PublicEvent.subscribe (codes "c") (codes "1")
    ∷ PublicEvent.opening
    ∷ PublicEvent.subscribe (codes "c") (codes "2")
    ∷ PublicEvent.joined
    ∷ PublicEvent.subscribe (codes "c") (codes "3")
    ∷ PublicEvent.turn (some [])
    ∷ PublicEvent.turn none
    ∷ PublicEvent.opening
    ∷ PublicEvent.joined
    ∷ []

run_public-IsSubscribed_example : IsSubscribed told (run_public told is_bad day started)
unfolding run_public
run_public-IsSubscribed_example = run_public-IsSubscribed told is_bad day false refl

abbrev listener : PublicState
listener = record {
  running = true;
  phase = Phase.listening true;
  subscriptions = (codes "c", codes "1") ∷ [];
  wire = [];
  heard = codes "x" ∷ [];
}

silence-reconnects_example :
    ((left_silent told is_bad listener).phase ≡ Phase.closed)
    × ((left_silent told is_bad listener).heard ≡ codes "x" ∷ [])
    × ((made_again told is_bad (left_silent told is_bad listener)).phase ≡ Phase.listening false)
    × ((made_again told is_bad (left_silent told is_bad listener)).wire
        ≡ map (subscription told) listener.subscriptions)
silence-reconnects_example = silence-reconnects told is_bad listener true refl refl

abbrev talk : List Text
talk = codes "a" ∷ codes "pong" ∷ codes "b" ∷ []

talk-heard_example :
    let after = run_public told is_bad (turns talk) listener in
    ((q : Bool) × (after.phase ≡ Phase.listening q))
    × (after.heard ≡ listener.heard ++ without_pongs talk)
    × (after.wire ≡ listener.wire)
unfolding text_eqb
talk-heard_example =
    talk-heard told is_bad talk listener true refl refl
      ((refl, refl), ((refl, refl), ((refl, refl), tt)))

abbrev keys : List (List ℕ)
keys = (1 ∷ 2 ∷ 3 ∷ 4 ∷ []) ∷ []

-- A string has room for less than a thousand bytes.
abbrev small : ℕ → Bool
small len = ltb len 1000

-- A pong of the server behind a ping.
read-pings_example :
    read small 2 keys (ping_frames (codes "p" ∷ []) ++ (server_frame 10 (codes "hi") ++ []))
    ≡ some (Ending.returned (codes "hi") (pongs keys (codes "p" ∷ [])) [])
read-pings_example =
    read-pings small 2 keys (codes "p" ∷ []) (codes "hi") [] 10 (omega arith)
      ((omega arith, refl), tt) (omega arith, refl) (omega arith) refl refl

-- The second frame announces 65,535 bytes.
read-ends_example : is_some (read small 8 keys (137 ∷ 0 ∷ 129 ∷ 126 ∷ 255 ∷ 255 ∷ [])) ≡ true
read-ends_example = read-ends small 8 keys (137 ∷ 0 ∷ 129 ∷ 126 ∷ 255 ∷ 255 ∷ []) (omega arith)
