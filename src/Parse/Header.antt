-- ===== src/Parse/Header.antt =====
-- A header of common/protocol.c, read by `parse_header` of common/parse.c.
use psnet.Prelude.{
  ℕ, ◌+◌, ◌≡◌, refl, ◌∙◌, ap, ◌<◌, ◌≤◌, ◌^◌, true, false, Option, none, some, List, [], ◌∷◌, arith,
  ltb, ◌>>=◌, length, take, pos,
}
use psnet.Libc.{Bytes, text, decimal, strtol, is_digit, char_at, c_string}
use psnet.Libc.Digits.{strtol-decimal-Stops, is_digit-decimal, length-decimal, length-decimal_ge}
use psnet.Protocol.{header_text}
use psnet.Jsmn.{
  JsmnTok, jsmn_object, jsmn_string, jsmn_primitive, jsmn_get_value, get_value_loop, next_key,
  jsmn_toklen, tok_at, from,
}
use psnet.Parse.{
  psnet_okay, copy_token, header_size, size_at, header_from, header_result, parsed_header,
  parse_header,
}

-- The tokens of a header, as the parser documents them.
abbrev pub header_tokens : ℕ → List JsmnTok
header_tokens n =
    record { kind = jsmn_object; start = 0; end = 25 + length (decimal n); size = 4 }
    ∷ record { kind = jsmn_string; start = 2; end = 8; size = 0 }
    ∷ record { kind = jsmn_string; start = 11; end = 15; size = 0 }
    ∷ record { kind = jsmn_string; start = 18; end = 22; size = 0 }
    ∷ record { kind = jsmn_primitive; start = 24; end = 24 + length (decimal n); size = 0 }
    ∷ []

abbrev size_token : ℕ → JsmnTok
size_token n = record { kind = jsmn_primitive; start = 24; end = 24 + length (decimal n); size = 0 }

toklen-size_token : (n : ℕ) → jsmn_toklen (size_token n) ≡ length (decimal n)
unfolding jsmn_toklen
toklen-size_token n = omega arith

copy_token-fits :
    (size : ℕ) (msg : Bytes) (tok : JsmnTok)
    → jsmn_toklen tok < size
    → copy_token size msg tok ≡ some (c_string (take (jsmn_toklen tok) (from tok.start msg)))
unfolding copy_token
copy_token-fits size msg tok h =
    let b : ltb (jsmn_toklen tok) size ≡ true = ground arith in rw b refl

copy_token-overflow :
    (size : ℕ) (msg : Bytes) (tok : JsmnTok)
    → size ≤ jsmn_toklen tok
    → copy_token size msg tok ≡ none
unfolding copy_token
copy_token-overflow size msg tok h =
    let b : ltb (jsmn_toklen tok) size ≡ false = ground arith in rw b refl

header_digit : (n : ℕ) → is_digit (char_at 24 (header_text n)) ≡ true
unfolding header_text
header_digit n = is_digit-decimal n (text "}\r\n\r\n")

header_strtol : (n : ℕ) → n < 2 ^ 63 → strtol (from 24 (header_text n)) ≡ (pos n, text "}\r\n\r\n")
unfolding header_text
header_strtol n h = strtol-decimal-Stops n (text "}\r\n\r\n") refl h

header_size-small : (n : ℕ) → n < 10000 → header_size (header_text n) (size_token n) ≡ some (some n)
unfolding header_size
header_size-small n h =
    let c =
      copy_token-fits 5 (header_text n) (size_token n)
        (omega (arith, toklen-size_token n, length-decimal 3 n (omega arith))) in
    rw (header_digit n, c, header_strtol n (omega arith)) refl

header_size-large : (n : ℕ) → 10000 ≤ n → header_size (header_text n) (size_token n) ≡ none
unfolding header_size
header_size-large n h =
    let c =
      copy_token-overflow 5 (header_text n) (size_token n)
        (omega (arith, toklen-size_token n, length-decimal_ge 4 n (omega arith))) in
    rw (header_digit n, c) refl

module _ (jsmn_parse : Bytes → ℕ → Option (List JsmnTok × ℕ)) where
  parse_header-size :
      (n : ℕ) (size : Option (Option ℕ))
      → jsmn_parse (header_text n) 256 ≡ some (header_tokens n, 5)
      → header_size (header_text n) (size_token n) ≡ size
      → parse_header jsmn_parse (header_text n)
        ≡ (size >>= header_result (header_text n) (header_tokens n) 2)
  unfolding parse_header parsed_header header_from size_at jsmn_get_value get_value_loop next_key
      tok_at header_text
  parse_header-size n size h e =
      ap (parsed_header (header_text n)) h
      ∙ ap (λ z. z >>= header_result (header_text n) (header_tokens n) 2) e

  -- `parse_header` reads the status and the size of a header for fewer than 10000 bytes whose tokens
  -- the parser gets right.
  pub parse_header-small :
      (n : ℕ)
      → n < 10000
      → jsmn_parse (header_text n) 256 ≡ some (header_tokens n, 5)
      → parse_header jsmn_parse (header_text n) ≡ some (some (psnet_okay, n))
  unfolding header_result tok_at header_text
  parse_header-small n h p = parse_header-size n (some (some n)) p (header_size-small n h)

  -- `parse_header` writes beyond its buffer for the digits at a header for 10000 bytes or more.
  pub parse_header-large :
      (n : ℕ)
      → 10000 ≤ n
      → jsmn_parse (header_text n) 256 ≡ some (header_tokens n, 5)
      → parse_header jsmn_parse (header_text n) ≡ none
  parse_header-large n h p = parse_header-size n none p (header_size-large n h)
