-- ===== src/Tests/Parsers.antt =====
-- The readers of common/parse.c at concrete messages.
use psnet.Prelude.{ℕ, ◌≡◌, refl, arith, Option, none, some, List}
use psnet.Libc.{Bytes}
use psnet.Protocol.{header_text}
use psnet.Jsmn.{JsmnTok}
use psnet.Parse.{parse_header}
use psnet.Parse.Header.{header_tokens, parse_header-large}

-- A parser that knows the headers for one size.
abbrev knows_header : ℕ → Bytes → ℕ → Option (List JsmnTok × ℕ)
knows_header n msg ntok = some (header_tokens n, 5)

parse_header-large_example : parse_header (knows_header 10000) (header_text 10000) ≡ none
parse_header-large_example = parse_header-large (knows_header 10000) 10000 (omega arith) refl
