-- ===== src/Jsmn.antt =====
-- The additions at the end of common/jsmn.c and in include/jsmn.h: looking values up in the tokens
-- that the parser has made. The parser itself is third-party code.
--
-- An array of tokens is a list; a read beyond it is a fault (`none`). Start and end of a token are
-- offsets into the message.
pub mod Tree
pub mod Lookup
use psnet.Prelude.{
  ℕ, zero, suc, ◌+◌, ◌-◌, Bool, true, false, ◌&&◌, Option, none, some, List, [], ◌∷◌, ltb, ◌==◌,
  ◌>>=◌, if◌then◌else◌, length,
}
use psnet.Libc.{Bytes}

pub data JsmnType : Type 0 where
  jsmn_primitive jsmn_object jsmn_array jsmn_string : JsmnType

pub record JsmnTok : Type 0 where
  pub kind : JsmnType
  pub start : ℕ
  pub end : ℕ
  pub size : ℕ

abbrev pub is_string : JsmnType → Bool
is_string jsmn_string = true
is_string _ = false

abbrev pub is_nested : JsmnType → Bool
is_nested jsmn_object = true
is_nested jsmn_array = true
is_nested _ = false

-- The string at an offset of the message.
abbrev pub from : ℕ → Bytes → Bytes
from zero s = s
from (suc n) [] = []
from (suc n) (b ∷ s) = from n s

-- `!strncmp(s, key, strlen(key))`: whether `s` begins with `key`.
abbrev pub starts_with : (s key : Bytes) → Bool
starts_with s [] = true
starts_with [] (k ∷ key) = false
starts_with (b ∷ s) (k ∷ key) = (b == k) && starts_with s key

-- The loop that skips a nested value: `rest` are the tokens from `i` on.
unfoldable pub skip_value : (rest : List JsmnTok) (end i ntok : ℕ) → Option (ℕ × ℕ × List JsmnTok)
skip_value rest zero i ntok = some (i, ntok, rest)
skip_value [] (suc end) i ntok = none
skip_value (t ∷ rest) (suc end) i ntok = skip_value rest (end + t.size) (i + 1) (ntok + t.size)

-- The value behind a key that is not the one sought: where the next key is.
unfoldable pub next_key : (rest : List JsmnTok) (i ntok : ℕ) → Option (ℕ × ℕ × List JsmnTok)
unfolding skip_value
next_key [] i ntok = none
next_key (v ∷ rest) i ntok =
    if is_nested v.kind then skip_value (v ∷ rest) 1 i ntok else some (i + 1, ntok, rest)

-- The loop of `jsmn_get_value`; the inner `none` is -1. Each turn moves on by one token at least.
unfoldable pub get_value_loop :
    (fuel : ℕ) (msg : Bytes) (rest : List JsmnTok) (i ntok : ℕ) (key : Bytes) → Option (Option ℕ)
get_value_loop zero msg rest i ntok key = none
get_value_loop (suc fuel) msg [] i ntok key = if ltb (i + 1) ntok then none else some none
get_value_loop (suc fuel) msg (t ∷ rest) i ntok key =
    let again = next_key rest (i + 1) ntok >>= λ r. get_value_loop fuel msg r.2 r.0 r.1 key in
    if ltb (i + 1) ntok
    then if is_string t.kind
      then if starts_with (from t.start msg) key then some (some (i + 1)) else again
      else some none
    else some none

unfoldable pub jsmn_get_value : (msg : Bytes) (obj : List JsmnTok) (key : Bytes) → Option (Option ℕ)
unfolding get_value_loop
jsmn_get_value msg [] key = none
jsmn_get_value msg (o ∷ rest) key = get_value_loop (suc (length rest)) msg rest 1 (o.size + 1) key

unfoldable pub jsmn_toklen : JsmnTok → ℕ
jsmn_toklen tok = tok.end - tok.start

unfoldable pub jsmn_tokeq : (msg : Bytes) (tok : JsmnTok) (str : Bytes) → Bool
jsmn_tokeq msg tok str = (jsmn_toklen tok == length str) && starts_with (from tok.start msg) str

-- `tok[i]`.
unfoldable pub tok_at : (tok : List JsmnTok) (i : ℕ) → Option JsmnTok
tok_at [] i = none
tok_at (t ∷ tok) zero = some t
tok_at (t ∷ tok) (suc i) = tok_at tok i

abbrev pub both : Option ℕ → Option (List ℕ) → Option (List ℕ)
both none rest = none
both (some i) none = none
both (some i) (some rest) = some (i ∷ rest)

-- `jsmn_get_values`: the indices of the values of all keys, or -1 if one is missing. Each key is
-- looked up in any case.
unfoldable pub jsmn_get_values :
    (msg : Bytes) (obj : List JsmnTok) (keys : List Bytes) → Option (Option (List ℕ))
jsmn_get_values msg obj [] = some (some [])
jsmn_get_values msg obj (key ∷ keys) = do
  found ← jsmn_get_value msg obj key
  rest ← jsmn_get_values msg obj keys
  some (both found rest)
