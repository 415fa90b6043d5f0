-- ===== src/Json.antt =====
-- What the code calls of simdjson, a library that stands in third_party: `J` is the type of its
-- values, and each field is one of its ways to read. `none` is its error, at which `get` leaves the
-- variable that it should set as it was. No law of them is assumed.
use crypto_trading_system.Prelude.{ℕ, List, [], Option, Text, ℤ, get_or_else}

pub record Json (J D : Type 0) : Type 0 where
  pub parse : Text → Option J  -- `parser.iterate(text)`
  pub text_at : Text → J → Option Text  -- `value[key]` as a `string_view`
  pub double_at : Text → J → Option D  -- `value[key].get_double_in_string()`
  pub int_at : Text → J → Option ℤ  -- `value[key].get_int64()`
  pub int_text_at : Text → J → Option ℤ  -- `value[key].get_int64_in_string()`
  pub object_at : Text → J → Option J  -- `value[key].get_object()`
  pub array_at : Text → J → Option (List (Option J))  -- an element may be an error
  pub as_array : J → Option (List (Option J))
  pub as_double : J → Option D  -- `value.get_double_in_string()`
  pub as_count : J → Option ℕ  -- `value.get_uint64_in_string()`

-- `std::string_view v; (void)value[key].get(v);`
abbrev pub text_or_empty : {J D : Type 0} → Json J D → Text → J → Text
text_or_empty json key value = get_or_else [] (json.text_at key value)

-- The elements of a field that should be an array, or none where it is not.
abbrev pub elements_at : {J D : Type 0} → Json J D → Text → J → List (Option J)
elements_at json key value = get_or_else [] (json.array_at key value)
