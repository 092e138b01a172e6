-- ===== src/Api/Json.antt =====
-- The JSON writer and the reader of one string member.
pub mod RoundTrip
use easy_failover.Base.{
  ℕ, ◌+◌, ◌-◌, ◌*◌, ◌/◌, ◌%◌, ltb, leb, ◌==◌, Text, codes, Bool, Option, none, some, List, [], ◌∷◌,
  ◌++◌, ◌&&◌, if◌then◌else◌,
}
use easy_failover.Base.Decimal.{decimal_ℤ}
use easy_failover.Base.Options.{◌>>=◌}
use easy_failover.Base.Search.{cut, skip}

-- kHexDigits.at(n).
unfoldable pub hex_digit : ℕ → ℕ
hex_digit n = if ltb n 10 then b'0' + n else b'a' + (n - 10)

-- One round of the loop of jsonString.
unfoldable pub json_char : ℕ → Text
unfolding hex_digit codes
json_char c =
    if c == b'"'
    then codes "\\\""
    else if c == b'\\'
    then codes "\\\\"
    else if c == 8
    then codes "\\b"
    else if c == 12
    then codes "\\f"
    else if c == b'\n'
    then codes "\\n"
    else if c == b'\r'
    then codes "\\r"
    else if c == b'\t'
    then codes "\\t"
    else if ltb c 0x20
    then codes "\\u00" ++ hex_digit (c / 16) ∷ hex_digit (c % 16) ∷ []
    else c ∷ []

unfoldable pub json_chars : Text → Text
json_chars [] = []
json_chars (c ∷ cs) = json_char c ++ json_chars cs

unfoldable pub json_string : Text → Text
json_string value = b'"' ∷ (json_chars value ++ b'"' ∷ [])

unfoldable pub json_bool : Bool → Text
json_bool value = if value then codes "true" else codes "false"

-- The rounds of a loop that writes a comma before every element but the first.
unfoldable pub separated : List Text → Text
separated [] = []
separated (t ∷ []) = t
separated (t ∷ (u ∷ us)) = t ++ b',' ∷ separated (u ∷ us)

pub nibble : ℕ → Option ℕ
nibble c =
    if leb b'0' c && leb c b'9'
    then some (c - b'0')
    else if leb b'a' c && leb c b'f'
    then some (c - b'a' + 10)
    else if leb b'A' c && leb c b'F'
    then some (c - b'A' + 10)
    else none

-- The four rounds over the digits of \u. The low four bits of `code_point << 4` are zero, so that `|`
-- is a sum; so it is in `utf8`.
pub code_point : ℕ → ℕ → ℕ → ℕ → Option ℕ
code_point a b c d = do
  i ← nibble a
  j ← nibble b
  k ← nibble c
  l ← nibble d
  some (((i * 16 + j) * 16 + k) * 16 + l)

pub utf8 : ℕ → Option Text
utf8 n =
    if leb 0xD800 n && leb n 0xDFFF
    then none
    else if ltb n 0x80
    then some (n ∷ [])
    else if ltb n 0x800
    then some ((0xC0 + n / 64) ∷ (0x80 + n % 64) ∷ [])
    else some ((0xE0 + n / 4096) ∷ (0x80 + n / 64 % 64) ∷ (0x80 + n % 64) ∷ [])

-- The byte for an escape of one letter.
pub simple_escape : ℕ → Option ℕ
simple_escape e =
    if e == b'"'
    then some e
    else if e == b'\\'
    then some e
    else if e == b'/'
    then some e
    else if e == b'b'
    then some 8
    else if e == b'f'
    then some 12
    else if e == b'n'
    then some b'\n'
    else if e == b'r'
    then some b'\r'
    else if e == b't'
    then some b'\t'
    else none

abbrev put : Option Text → Option Text → Option Text
put none rest = none
put (some t) none = none
put (some t) (some rest) = some (t ++ rest)

abbrev byte : Option ℕ → Option Text
byte none = none
byte (some c) = some (c ∷ [])

pub unicode : ℕ → ℕ → ℕ → ℕ → Option Text
unicode a b c d = do n ← code_point a b c d; utf8 n

-- The loop of parseJsonStringValue behind the opening quote, `none` where it returns {}.
unfoldable mutual
  pub read_string : Text → Option Text
  read_string [] = none
  read_string (c ∷ cs) =
      let plain = put (some (c ∷ [])) (read_string cs) in
      let escaped = read_escaped cs in
      if c == b'"' then some [] else if c == b'\\' then escaped else plain

  read_escaped : Text → Option Text
  read_escaped [] = none
  read_escaped (e ∷ cs) =
      let long = read_unicode cs in
      let short = put (byte (simple_escape e)) (read_string cs) in if e == b'u' then long else short

  read_unicode : Text → Option Text
  read_unicode (a ∷ (b ∷ (c ∷ (d ∷ cs)))) = put (unicode a b c d) (read_string cs)
  read_unicode _ = none

opened : Text → Option Text
unfolding read_string
opened [] = none
opened (c ∷ cs) = if c == b'"' then read_string cs else none

member : Text → Text → Option Text
unfolding cut skip opened
member body key = do
  (_, after_key) ← cut (b'"' ∷ (key ++ b'"' ∷ [])) body
  (_, after_colon) ← cut (b':' ∷ []) after_key
  opened (skip (codes " \t\r\n") after_colon)

abbrev pub or_empty : Option Text → Text
or_empty none = []
or_empty (some value) = value

unfoldable pub parse_json_string_value : Text → Text → Text
unfolding member
parse_json_string_value body key = or_empty (member body key)
