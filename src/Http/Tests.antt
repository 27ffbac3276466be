-- ===== src/Http/Tests.antt =====
-- Runs of include/nanovllm/http_server.hpp.
use nano_v_llm_cpp.Base.{◌≡◌, refl, true, [], ◌∷◌, ◌++◌, none, some}
use nano_v_llm_cpp.Text.{Bytes, bytes, starts_with, find, find_in, same}
use nano_v_llm_cpp.JsonParser.{parsed, string}
use nano_v_llm_cpp.Http.{
  json_escape, quoted, skip_blanks, content_at, content_from, role_from, last_user_loop,
  json_extract_last_user,
}
use nano_v_llm_cpp.Http.Server.{crlf, Site, handle_client}
use nano_v_llm_cpp.Http.Escape.{string-json_escape, quoted-json_escape}
use nano_v_llm_cpp.Http.Respond.{Answered, handle_client-Answered}

-- `a"` and a newline
abbrev text : Bytes
text = b'a' ∷ b'"' ∷ 10 ∷ []

string-json_escape_example :
    string (b'"' ∷ (json_escape text ++ (b'"' ∷ bytes "}"))) ≡ parsed text (bytes "}")
string-json_escape_example = string-json_escape text (bytes "}")

-- The newline is read as the letter n.
quoted-json_escape_example :
    quoted [] (json_escape text ++ (b'"' ∷ bytes "}")) ≡ (bytes "a\"n", bytes "\"}")
quoted-json_escape_example = quoted-json_escape text (bytes "}")

last_of_two :
    json_extract_last_user
      (bytes "{\"role\":\"user\",\"content\":\"a\"},{\"role\": \"user\",\"content\": \"b\"}")
    ≡ some (bytes "b")
unfolding json_extract_last_user last_user_loop role_from content_from content_at skip_blanks quoted
    find find_in starts_with same
last_of_two = refl

-- A site that answers every message with itself.
abbrev echo : Site
echo = record {
  model_name = bytes "m";
  webui = bytes "HTTP/1.1 200 OK";
  h = λ cr. some cr.last_user;
  eh = none;
  stod = λ s. none;
  stoi = λ s. some 11;
  minus_one = 0;
}

abbrev request : Bytes
request =
    bytes "POST /v1/completions HTTP/1.1"
    ++ (crlf ++ (bytes "Content-Length: 14" ++ (crlf ++ (crlf ++ bytes "{\"prompt\":\"a\"}"))))

echo-page : starts_with (bytes "HTTP/1.1 ") echo.webui ≡ true
unfolding starts_with
echo-page = refl

handle_client-Answered_example : Answered (handle_client echo (request ∷ []))
handle_client-Answered_example = handle_client-Answered echo echo-page (request ∷ [])
