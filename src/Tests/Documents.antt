-- ===== src/Tests/Documents.antt =====
-- A small stand-in for simdjson, at which the theorems about the exchange's messages are evaluated: a
-- value is an entry of words, numbers and levels, a level, a number, or the reply to a query.
use crypto_trading_system.Prelude.{
  ℕ, ◌+◌, [], ◌∷◌, List, map, Option, none, some, Text, text_eq, text_eqb, codes, ℤ, pos, negsuc,
  take, drop, get_or_else,
}
use crypto_trading_system.Prelude.Map
use crypto_trading_system.Prelude.Map.{Map}
use crypto_trading_system.Json.{Json}
use crypto_trading_system.Okx.Paging.Cursor.{after}

pub record Entry : Type 0 where
  pub words : Map Text Text
  pub numbers : Map Text ℤ
  pub levels : Map Text (List (List ℤ))

pub data Value : Type 0 where
  entry : Entry → Value
  level : List ℤ → Value
  number : ℤ → Value
  reply : Text → Value  -- to a query behind a cursor

unfoldable pub word_at : Text → Value → Option Text
unfolding Map.find text_eqb
word_at key (Value.entry e) = Map.find key e.words
word_at key (Value.reply cursor) = some (codes "0")
word_at key _ = none

unfoldable pub number_at : Text → Value → Option ℤ
unfolding Map.find text_eqb
number_at key (Value.entry e) = Map.find key e.numbers
number_at key _ = none

abbrev pub as_values : Option (List (List ℤ)) → Option (List (Option Value))
as_values none = none
as_values (some levels) = some (map (λ l. some (Value.level l)) levels)

abbrev pub count_from : ℤ → Option ℕ
count_from (pos n) = some n
count_from (negsuc n) = none

-- The part of a path behind "&after=".
abbrev pub cursor_of : ℕ → Text → Text
cursor_of base path = drop (base + 7) path

-- The exchange holds the values and serves a hundred of them behind the cursor of a path, whose part
-- before the cursor has the given length.
unfoldable pub elements_of : List Value → Text → Text → Value → Option (List (Option Value))
unfolding word_at after
elements_of held id key (Value.reply cursor) =
    some (map some (take 100 (after (λ v. get_or_else [] (word_at id v)) cursor held)))
elements_of held id key (Value.entry e) = as_values (Map.find key e.levels)
elements_of held id key _ = none

abbrev pub level_values : Value → Option (List (Option Value))
level_values (Value.level l) = some (map (λ n. some (Value.number n)) l)
level_values _ = none

abbrev pub number_of : Value → Option ℤ
number_of (Value.number n) = some n
number_of _ = none

abbrev pub natural_of : Value → Option ℕ
natural_of (Value.number n) = count_from n
natural_of _ = none

abbrev pub documents : ℕ → Text → List Value → Json Value ℤ
documents base id held = record {
  parse = λ text. some (Value.reply (cursor_of (base + 1) text));
  text_at = word_at;
  double_at = number_at;
  int_at = number_at;
  int_text_at = number_at;
  object_at = λ key v. some v;
  array_at = elements_of held id;
  as_array = level_values;
  as_double = number_of;
  as_count = natural_of;
}

-- An exchange that answers with the path itself, which `documents` reads.
abbrev pub echo : Text → Text
echo path = b'{' ∷ path
