-- ===== src/Api/Http.antt =====
-- Requests and responses as bytes.
pub mod Read
use easy_failover.Base.{
  ℕ, ◌+◌, ◌*◌, ◌^◌, ◌<◌, ltb, leb, ◌==◌, pos, ℤ, Text, codes, Bool, true, false, ◌&&◌, ◌||◌, not,
  Option, none, some, List, [], ◌∷◌, ◌++◌, map, length, is_empty, drop, all, if◌then◌else◌,
}
use easy_failover.Base.Decimal.{decimal, decimal_ℤ, from_chars_int, leading, is_digit}
use easy_failover.Base.Options.{◌>>=◌}
use easy_failover.Base.Search.{starts_with, cut, skip, trim_end, until, to_lower}
use easy_failover.Platform.Ownership.{skip_space, token, after_token}
use easy_failover.Api.Data.{LocalApiHttpRequest, LocalApiHttpResponse}
use easy_failover.Api.Json.{json_string}

-- kMaxApplyBodyBytes and kMaxRequestBytes.
abbrev pub max_apply_body_bytes : ℕ
max_apply_body_bytes = 1048576

abbrev pub max_request_bytes : ℕ
max_request_bytes = max_apply_body_bytes + 8192

unfoldable pub error_envelope : Text → Text → Text
error_envelope code message =
    codes "{\"error\":{\"code\":"
    ++ (json_string code
        ++ (codes ",\"message\":" ++ (json_string message ++ codes ",\"details\":[]}}")))

unfoldable pub auth_error_envelope : Text → Text → Text
auth_error_envelope code message =
    codes "{\"error\":{\"code\":"
    ++ (json_string code ++ (codes ",\"message\":" ++ (json_string message ++ codes "}}")))

unfoldable pub json_response : ℕ → Text → LocalApiHttpResponse
json_response status_code body = record {
  status_code = status_code;
  content_type = codes "application/json";
  body = body;
}

http_status_text : ℕ → Text
http_status_text status_code =
    if status_code == 200
    then codes "OK"
    else if status_code == 400
    then codes "Bad Request"
    else if status_code == 401
    then codes "Unauthorized"
    else if status_code == 403
    then codes "Forbidden"
    else if status_code == 404
    then codes "Not Found"
    else if status_code == 405
    then codes "Method Not Allowed"
    else codes "Internal Server Error"

-- The status line and the header fields.
response_head : LocalApiHttpResponse → Text
unfolding http_status_text
response_head response =
    codes "HTTP/1.1 "
    ++ (decimal response.status_code
        ++ (codes " "
            ++ (http_status_text response.status_code
                ++ (codes "\r\nContent-Type: "
                    ++ (response.content_type
                        ++ (codes "\r\nContent-Length: "
                            ++ (decimal (length response.body)
                                ++ codes
                                    "\r\nAccess-Control-Allow-Origin: http://localhost:3000\r\nConnection: close\r\n\r\n")))))))

unfoldable pub http_response_bytes : LocalApiHttpResponse → Text
unfolding response_head
http_response_bytes response = response_head response ++ response.body

unfoldable pub trim_query_string : Text → Text
trim_query_string = until b'?'

-- The lines between line ends; the last line may be empty.
abbrev begin_with : ℕ → List Text → List Text
begin_with c [] = (c ∷ []) ∷ []
begin_with c (line ∷ more) = (c ∷ line) ∷ more

unfoldable pub lines : Text → List Text
lines [] = [] ∷ []
lines (c ∷ []) = (c ∷ []) ∷ []
lines (c ∷ (d ∷ cs)) =
    let next = lines cs in
    let here = begin_with c (lines (d ∷ cs)) in
    if (c == b'\r') && (d == b'\n') then [] ∷ next else here

-- Everything up to the empty line, without the request line: `raw` is `request_line`, a line end and
-- the rest.
header_lines : Text → Text → List Text
unfolding lines
header_lines request_line head = lines (drop (length request_line + 2) head)

-- One round of the loop over the header: the value of an Authorization field replaces the old one.
authorize : Text → Text → Text
unfolding starts_with skip
authorize old line =
    let value = skip (codes " \t") (drop 14 line) in
    if starts_with (codes "authorization:") (map to_lower line)
    then (if is_empty value then old else value)
    else old

authorization_of : Text → List Text → Text
unfolding authorize
authorization_of old [] = old
authorization_of old (line ∷ more) = authorization_of (authorize old line) more

request_of : Text → Text → Text → Option LocalApiHttpRequest
unfolding header_lines authorization_of
request_of request_line head body =
    let after_method = after_token (skip_space request_line) in
    let method = token (skip_space request_line) in
    let path = token (skip_space after_method) in
    if is_empty method || is_empty path
    then none
    else some (record {
      method = method;
      path = path;
      body = body;
      authorization = authorization_of [] (header_lines request_line head);
    })

-- Without an empty line all of `raw` is header, and there is no body.
abbrev split_head : Text → Option (Text × Text) → Text × Text
split_head raw none = (raw, [])
split_head raw (some parts) = parts

unfoldable pub parse_http_request : Text → Option LocalApiHttpRequest
unfolding request_of
parse_http_request raw = do
  (request_line, _) ← cut (codes "\r\n") raw
  let (head, body) = split_head raw (cut (codes "\r\n\r\n") raw)
  request_of request_line head body

-- The field's value: decimal digits alone, between optional white space. A number that std::stoull
-- cannot hold is beyond the bound too.
content_length_value : Text → Option ℕ
unfolding skip trim_end
content_length_value value =
    let digits = trim_end (codes " \t") (skip (codes " \t") value) in
    if is_empty (skip (codes " \t") value)
    then none
    else if is_empty digits || not (all is_digit digits)
    then none
    else if ltb max_request_bytes (leading 0 digits)
    then none
    else some (leading 0 digits)

content_length_in : List Text → Option ℕ
unfolding content_length_value starts_with
content_length_in [] = some 0
content_length_in (line ∷ more) =
    let later = content_length_in more in
    if starts_with (codes "Content-Length:") line
    then content_length_value (drop 15 line)
    else later

unfoldable pub parse_content_length : Text → Option ℕ
unfolding content_length_in header_lines
parse_content_length raw = do
  (head, _) ← cut (codes "\r\n\r\n") raw
  (request_line, _) ← cut (codes "\r\n") raw
  content_length_in (header_lines request_line head)
