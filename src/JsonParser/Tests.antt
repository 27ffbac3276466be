-- ===== src/JsonParser/Tests.antt =====
-- Runs of the parser of include/nanovllm/json.hpp.
use nano_v_llm_cpp.Base.{ℕ, ◌≡◌, ◌≢◌, refl, [], ◌∷◌, Option, some}
use nano_v_llm_cpp.Text.{Bytes, bytes, same, is_space, is_digit, starts_with}
use nano_v_llm_cpp.Json.{Json, null, end, field, push_back, set_field, before}
use nano_v_llm_cpp.JsonParser.{
  parsed, failed, out_of_fuel, no_number, ws, peek, expect, expect_literal, boolean, number_char,
  number_run, number, escape_at, unicode_at, stoul16, hex_run, hex_digit, utf8, char_at,
  string_loop, string, after_item, after_field, opened, key, value_at, value, parse,
}
use nano_v_llm_cpp.JsonParser.Total.{parse_ends}

-- Stands for `std::stod`: every text is the number 0.
abbrev zero_of : Bytes → Option ℕ
zero_of s = some 0

-- Of two entries with one key the last stays, and the entries stand in the order of their keys.
parses_object :
    parse zero_of (bytes "{\"b\": [1, true], \"a\": null, \"b\": \"x\"}")
    ≡ parsed
        (Json.object (field (bytes "a") null (field (bytes "b") (Json.string (bytes "x")) end)))
        (bytes "")
unfolding parse value value_at opened peek ws is_space expect string string_loop char_at escape_at
    number number_run number_char is_digit boolean expect_literal starts_with after_item after_field
    key push_back set_field same before
parses_object = refl

-- A comma asks for another item.
refuses_comma : parse zero_of (bytes "[1,]") ≡ failed no_number
unfolding parse value value_at opened peek ws is_space expect number number_run number_char is_digit
    starts_with after_item push_back
refuses_comma = refl

-- The Greek letter alpha, and a lone surrogate.
reads_unicode :
    string (bytes "\"\\u03b1\\uD800\"") ≡ parsed (0xCE ∷ 0xB1 ∷ 0xED ∷ 0xA0 ∷ 0x80 ∷ []) (bytes "")
unfolding string string_loop expect ws is_space char_at escape_at unicode_at stoul16 hex_run
    hex_digit is_digit utf8
reads_unicode = refl

parse_ends_example : parse zero_of (bytes "[[[{\"a\":[") ≢ out_of_fuel
parse_ends_example = parse_ends zero_of (bytes "[[[{\"a\":[")
