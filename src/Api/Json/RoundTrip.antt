-- ===== src/Api/Json/RoundTrip.antt =====
-- What jsonString writes, parseJsonStringValue reads back.
use mathlib.Core.List.{append_assoc}
use easy_failover.Base.{
  ℕ, ◌<◌, ◌/◌, ◌%◌, ltb, ◌==◌, Text, codes, some, [], ◌∷◌, ◌++◌, ◌≡◌, refl, arith, ap, true, false,
  if_cases, ltb→lt, ==_iff,
}
use easy_failover.Base.Search.{cut, starts_with, skip, one_of}
use easy_failover.Api.Json.{
  json_char, json_chars, json_string, read_string, simple_escape, hex_digit, nibble, code_point,
  utf8, unicode, parse_json_string_value, member, opened, or_empty,
}

read_plain :
    (c : ℕ) (rest t : Text)
    → (c == b'"') ≡ false
    → (c == b'\\') ≡ false
    → read_string rest ≡ some t
    → read_string (c ∷ rest) ≡ some (c ∷ t)
unfolding read_string
read_plain c rest t h k e = rw (h, k, e) refl

read_short :
    (e c : ℕ) (rest t : Text)
    → (e == b'u') ≡ false
    → simple_escape e ≡ some c
    → read_string rest ≡ some t
    → read_string (b'\\' ∷ (e ∷ rest)) ≡ some (c ∷ t)
unfolding read_string
read_short e c rest t h k r = rw (h, k, r) refl

unicode_control :
    (c : ℕ) → c < 32 → unicode b'0' b'0' (hex_digit (c / 16)) (hex_digit (c % 16)) ≡ some (c ∷ [])
unfolding unicode code_point nibble hex_digit utf8
unicode_control c h = ground arith

module _ (c : ℕ) (rest t : Text) (e : read_string rest ≡ some t) where
  ReadsAs : Text → Type 0
  ReadsAs written = read_string (written ++ rest) ≡ some (c ∷ t)

  plain_ReadsAs : (c == b'"') ≡ false → (c == b'\\') ≡ false → ReadsAs (c ∷ [])
  unfolding ReadsAs
  plain_ReadsAs h k = read_plain c rest t h k e

  control_ReadsAs : c < 32 → ReadsAs (codes "\\u00" ++ hex_digit (c / 16) ∷ hex_digit (c % 16) ∷ [])
  unfolding read_string ReadsAs codes
  control_ReadsAs h = rw (unicode_control c h, e) refl

  short_ReadsAs :
      (letter byte : ℕ)
      → (letter == b'u') ≡ false
      → simple_escape letter ≡ some byte
      → (c == byte) ≡ true
      → ReadsAs (b'\\' ∷ (letter ∷ []))
  unfolding ReadsAs
  short_ReadsAs letter byte h k same =
      rw ((==_iff c byte).0 same) (read_short letter byte rest t h k e)

  json_char-ReadsAs : ReadsAs (json_char c)
  unfolding json_char codes simple_escape
  json_char-ReadsAs =
      if_cases ReadsAs (c == b'"') _ _ (short_ReadsAs b'"' b'"' refl refl) λ not_quote.
        if_cases ReadsAs (c == b'\\') _ _ (short_ReadsAs b'\\' b'\\' refl refl) λ not_slash.
          if_cases ReadsAs (c == 8) _ _ (short_ReadsAs b'b' 8 refl refl) λ _.
            if_cases ReadsAs (c == 12) _ _ (short_ReadsAs b'f' 12 refl refl) λ _.
              if_cases ReadsAs (c == b'\n') _ _ (short_ReadsAs b'n' b'\n' refl refl) λ _.
                if_cases ReadsAs (c == b'\r') _ _ (short_ReadsAs b'r' b'\r' refl refl) λ _.
                  if_cases ReadsAs (c == b'\t') _ _ (short_ReadsAs b't' b'\t' refl refl) λ _.
                    if_cases ReadsAs (ltb c 0x20) _ _ (λ low. control_ReadsAs (ltb→lt c 0x20 low))
                      λ _. plain_ReadsAs not_quote not_slash

-- The reader undoes the escapes, whatever follows the closing quote.
pub read_string-json_chars :
    (value rest : Text) → read_string (json_chars value ++ (b'"' ∷ rest)) ≡ some value
unfolding json_chars read_string ReadsAs
read_string-json_chars [] rest = refl
read_string-json_chars (c ∷ cs) rest =
    rw (append_assoc (json_char c) (json_chars cs) (b'"' ∷ rest))
      (json_char-ReadsAs c (json_chars cs ++ (b'"' ∷ rest)) cs (read_string-json_chars cs rest))

read_string-json_string :
    (value rest : Text) → read_string ((json_chars value ++ (b'"' ∷ [])) ++ rest) ≡ some value
read_string-json_string value rest =
    rw (append_assoc (json_chars value) (b'"' ∷ []) rest) (read_string-json_chars value rest)

-- What a client sends to the apply endpoint: {"format":…,"config":…}.
abbrev pub apply_body : Text → Text → Text
apply_body format config =
    codes "{\"format\":"
    ++ (json_string format ++ (codes ",\"config\":" ++ (json_string config ++ codes "}")))

-- From the body that a client builds with format toml and any text of a config, the reader of JSON
-- members gets the format and exactly that text.
pub parse_json_string_value-apply_body :
    (config : Text)
    → (parse_json_string_value (apply_body (codes "toml") config) (codes "format") ≡ codes "toml")
      × (parse_json_string_value (apply_body (codes "toml") config) (codes "config") ≡ config)
unfolding parse_json_string_value member cut starts_with skip one_of opened codes json_string
    json_chars json_char
parse_json_string_value-apply_body config =
    (refl, ap or_empty (read_string-json_string config (b'}' ∷ [])))
