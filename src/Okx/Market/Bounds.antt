-- ===== src/Okx/Market/Bounds.antt =====
-- What `DecodeDepth` of src/clients/okx/okx.cpp makes of the levels of a message.
use crypto_trading_system.Prelude.{
  ◌≡◌, refl, ap, ◌∙◌, sym, ℕ, zero, suc, ◌+◌, ◌≤◌, [], ◌∷◌, ◌++◌, List, Option, none, some, Text,
  codes, arith, false, leb, length, length-append, append-nil, append_assoc, take, length-take-le,
  bind,
}
use crypto_trading_system.Defs.{
  PriceLevel, Depth, InstrumentInfo, c_str, detect_market_type, set_field,
}
use crypto_trading_system.Double.{Double}
use crypto_trading_system.Json.{Json, elements_at}
use crypto_trading_system.Registry
use crypto_trading_system.Registry.{InstrumentRegistry}
use crypto_trading_system.Okx.Market.{
  max_depth_levels, empty_level, read_level, level_of, read_levels, decode_depth,
}

at_most : (xs ys : List PriceLevel) → xs ≡ take 5 ys → length xs ≤ 5
at_most xs ys e = rw e (length-take-le 5 ys)

still :
    (before : List PriceLevel) (room : ℕ)
    → length before + suc room ≡ 5
    → leb max_depth_levels (length before) ≡ false
still before room h = ground arith

module _ {J D : Type 0} ⦃d : Double D⦄ (json : Json J D) (registry : InstrumentRegistry) where
  -- The levels that are arrays, each read by itself.
  abbrev pub readable : InstrumentInfo → List (Option J) → List PriceLevel
  readable info [] = []
  readable info (level ∷ rest) =
      level_of json registry info (bind level json.as_array) ++ readable info rest

  -- One level, for what is known of the rest.
  read_levels-one :
      (info : InstrumentInfo) (rest : List (Option J))
      → ((before : List PriceLevel) (room : ℕ)
          → length before + room ≡ 5
          → read_levels json registry info rest before ≡ before ++ take room (readable info rest))
      → (level : Option (List (Option J))) (before : List PriceLevel) (room : ℕ)
      → length before + suc room ≡ 5
      → read_levels json registry info rest (before ++ level_of json registry info level)
        ≡ before ++ take (suc room) (level_of json registry info level ++ readable info rest)
  read_levels-one info rest known none before room h =
      ap (read_levels json registry info rest) (append-nil before) ∙ known before (suc room) h
  read_levels-one info rest known (some elements) before room h =
      let read = read_level json registry info elements empty_level in
      known (before ++ (read ∷ [])) room (omega (arith, length-append before (read ∷ [])))
      ∙ append_assoc before (read ∷ []) (take room (readable info rest))

  read_levels-take :
      (info : InstrumentInfo) (levels : List (Option J)) (before : List PriceLevel) (room : ℕ)
      → length before + room ≡ 5
      → read_levels json registry info levels before ≡ before ++ take room (readable info levels)
  unfolding read_levels
  read_levels-take info [] before zero h = sym (append-nil before)
  read_levels-take info [] before (suc room) h = sym (append-nil before)
  read_levels-take info (level ∷ rest) before zero h = ground (arith, append-nil before)
  read_levels-take info (level ∷ rest) before (suc room) h = rw (still before room h) (
      read_levels-one info rest (read_levels-take info rest) (bind level json.as_array) before room
        h)

  -- A depth that is decoded holds, of each side, the first five of the levels that are arrays, and says
  -- how many these are; no more than five levels are ever written.
  pub decode_depth-levels :
      (inst_id : Text) (message : J) (info : InstrumentInfo)
      → Registry.get registry (set_field 32 inst_id) ≡ some info
      → (depth : Depth) × (decode_depth json registry inst_id message ≡ some depth)
        × (depth.asks ≡ take 5 (readable info (elements_at json (codes "asks") message)))
        × (depth.bids ≡ take 5 (readable info (elements_at json (codes "bids") message)))
        × (depth.ask_levels ≡ length depth.asks)
        × (depth.bid_levels ≡ length depth.bids)
        × (depth.ask_levels ≤ 5)
        × (depth.bid_levels ≤ 5)
  unfolding decode_depth
  decode_depth-levels inst_id message info known =
      let levels =
        λ (side : Text). read_levels json registry info (elements_at json side message) [] in
      let depth : Depth = record {
        instrument = set_field 32 inst_id;
        market_type = detect_market_type (c_str inst_id);
        ask_levels = length (levels (codes "asks"));
        bid_levels = length (levels (codes "bids"));
        asks = levels (codes "asks");
        bids = levels (codes "bids");
      } in
      let whole =
        λ (side : Text). read_levels-take info (elements_at json side message) [] 5 refl in
      (
        depth,
        rw known refl,
        whole (codes "asks"),
        whole (codes "bids"),
        refl,
        refl,
        at_most _ _ (whole (codes "asks")),
        at_most _ _ (whole (codes "bids")),
      )
