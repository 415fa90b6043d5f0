-- ===== src/Okx/Replies.antt =====
-- What every query of src/clients/okx/okx.cpp does with the body of a reply before it reads the
-- elements of the data.
use crypto_trading_system.Prelude.{
  [], ◌∷◌, List, Option, none, some, Text, text_eq, codes, nat_eqb, bind, ◌==◌, if◌then◌else◌,
}
use crypto_trading_system.Json.{Json}

-- The body from its first `{` on; the empty body has none.
unfoldable pub from_brace : Text → Option Text
from_brace [] = none
from_brace (c ∷ s) = if nat_eqb c b'{' then some (c ∷ s) else from_brace s

module _ {J D : Type 0} (json : Json J D) where
  -- The array under "data" of a reply that parses and whose code is "0".
  unfoldable pub reply_data : Text → Option (List (Option J))
  unfolding from_brace
  reply_data raw_body = bind (from_brace raw_body) λ body. bind (json.parse body) λ doc.
      bind (json.text_at (codes "code") doc)
        λ code. if code == codes "0" then json.array_at (codes "data") doc else none
