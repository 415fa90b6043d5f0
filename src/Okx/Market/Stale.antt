-- ===== src/Okx/Market/Stale.antt =====
-- What `DecodeTicker` of src/clients/okx/okx.cpp makes of a field that cannot be read.
use crypto_trading_system.Prelude.{◌≡◌, refl, some, none, Text, codes}
use crypto_trading_system.Defs.{Ticker, InstrumentInfo, set_field}
use crypto_trading_system.Double.{Double}
use crypto_trading_system.Json.{Json}
use crypto_trading_system.Registry
use crypto_trading_system.Registry.{InstrumentRegistry}
use crypto_trading_system.Utils.{encode}
use crypto_trading_system.Okx.Market.{read_ticker, decode_ticker}

module _ {J D : Type 0} ⦃d : Double D⦄ (json : Json J D) (registry : InstrumentRegistry) where
  -- A ticker whose bid price and bid volume cannot be read, as those of an instrument that nobody bids
  -- for, is handed on with the last traded volume as its bid price, and that volume is its bid volume
  -- as well.
  pub decode_ticker-stale :
      (inst_id : Text) (message : J) (info : InstrumentInfo) (last_sz : D)
      → Registry.get registry (set_field 32 inst_id) ≡ some info
      → json.double_at (codes "lastSz") message ≡ some last_sz
      → json.double_at (codes "bidPx") message ≡ none
      → json.double_at (codes "bidSz") message ≡ none
      → (ticker : Ticker D) × (decode_ticker json registry inst_id message ≡ some ticker)
        × (ticker.bid_price ≡ encode last_sz info.price_precision)
        × (ticker.bid_volume ≡ encode last_sz info.volume_precision)
  unfolding decode_ticker
  decode_ticker-stale inst_id message info last_sz known sz no_px no_sz = (
    read_ticker json registry info inst_id message,
    rw known refl,
    rw (no_px, sz) refl,
    rw (no_sz, no_px, sz) refl,
  )
