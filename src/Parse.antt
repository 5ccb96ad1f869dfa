-- ===== src/Parse.antt =====
-- common/parse.c: the messages, headers and lists of nodes that a peer sends, read through their
-- tokens.
--
-- `jsmn_parse` is a parameter: from a message and the number of tokens there is room for, the tokens
-- with `toknext`, or `none` for an error. A write beyond a fixed buffer is a fault (`none` of the
-- whole).
pub mod Header
pub mod Nodes
pub mod Entry
pub mod Listing
pub mod Document
use psnet.Prelude.{
  ℕ, ◌^◌, zero, suc, ◌+◌, ◌-◌, ◌*◌, Bool, true, false, not, ◌&&◌, ◌||◌, Option, none, some, List,
  [], ◌∷◌, ◌++◌, ltb, leb, ◌==◌, ◌>>=◌, if◌then◌else◌, take, length, ℤ, pos, negsuc, is_neg, above,
}
use psnet.Libc.{Bytes, text, strtol, is_digit, char_at, c_string}
use psnet.Ipv6.{SockAddr, set_in_port}
use psnet.Client.{Host, port_max, to_port, is_empty}
use psnet.Jsmn.{
  JsmnType, jsmn_object, jsmn_array, jsmn_primitive, JsmnTok, jsmn_get_value, jsmn_get_values,
  jsmn_toklen, tok_at, from, starts_with, skip_value, is_string,
}

abbrev pub is_object : JsmnType → Bool
is_object jsmn_object = true
is_object _ = false

abbrev pub is_array : JsmnType → Bool
is_array jsmn_array = true
is_array _ = false

abbrev pub is_primitive : JsmnType → Bool
is_primitive jsmn_primitive = true
is_primitive _ = false

pub data PsnetStatus : Type 0 where
  psnet_okay psnet_error : PsnetStatus

-- `parse_message` behind `jsmn_parse`: the tokens, the new `ntok` and the index of the method; the
-- inner `none` is -1.
unfoldable pub parsed_message :
    Bytes → Option (List JsmnTok × ℕ) → Option (Option (List JsmnTok × ℕ × ℕ))
parsed_message msg none = some none
parsed_message msg (some r) = do
  first ← tok_at r.0 0
  if is_object first.kind
      then (jsmn_get_value msg r.0 (text "method") >>= λ method.
          some (elim method [ none ↦ none | some i ↦ some (r.0, r.1, i) ]))
      else some none

module _ (jsmn_parse : Bytes → ℕ → Option (List JsmnTok × ℕ)) where
  unfoldable pub parse_message : Bytes → ℕ → Option (Option (List JsmnTok × ℕ × ℕ))
  unfolding parsed_message
  parse_message msg ntok = parsed_message msg (jsmn_parse msg ntok)

-- `strncpy(s, msg + tok->start, jsmn_toklen(tok)); s[jsmn_toklen(tok)] = '\0';` with a buffer of
-- `size` bytes: the string that it then holds.
unfoldable pub copy_token : (size : ℕ) (msg : Bytes) (tok : JsmnTok) → Option Bytes
unfolding jsmn_toklen
copy_token size msg tok =
    if ltb (jsmn_toklen tok) size
    then some (c_string (take (jsmn_toklen tok) (from tok.start msg)))
    else none

abbrev pub status_of : (msg : Bytes) (start : ℕ) → PsnetStatus
status_of msg start = if starts_with (from start msg) (text "okay") then psnet_okay else psnet_error

-- The size that `parse_header` reads from its token; the inner `none` is -1.
unfoldable pub header_size : (msg : Bytes) (tok : JsmnTok) → Option (Option ℕ)
unfolding copy_token
header_size msg tok =
    if not (is_primitive tok.kind) || not (is_digit (char_at tok.start msg))
    then some none
    else (copy_token 5 msg tok >>= λ s.
        some (elim (strtol (from tok.start msg)).0 [ pos n ↦ some n | negsuc n ↦ none ]))

-- The size field, if there is one.
unfoldable pub size_at : (msg : Bytes) (tok : List JsmnTok) (isize : Option ℕ) → Option (Option ℕ)
unfolding header_size
size_at msg tok none = some (some 0)
size_at msg tok (some isize) = do t ← tok_at tok isize; header_size msg t

-- The end of `parse_header`.
unfoldable pub header_result :
    (msg : Bytes) (tok : List JsmnTok) (istatus : ℕ) → Option ℕ → Option (Option (PsnetStatus × ℕ))
header_result msg tok istatus none = some none
header_result msg tok istatus (some n) = do
  t ← tok_at tok istatus
  some (some (status_of msg t.start, n))

-- `parse_header` behind the look-up of the status.
unfoldable pub header_from :
    (msg : Bytes) (tok : List JsmnTok) (istatus : Option ℕ) → Option (Option (PsnetStatus × ℕ))
unfolding size_at header_result
header_from msg tok none = some none
header_from msg tok (some istatus) = do
  isize ← jsmn_get_value msg tok (text "size")
  size ← size_at msg tok isize
  header_result msg tok istatus size

-- `parse_header` behind `jsmn_parse`: the status and the size, or -1.
unfoldable pub parsed_header :
    (msg : Bytes) → Option (List JsmnTok × ℕ) → Option (Option (PsnetStatus × ℕ))
unfolding header_from
parsed_header msg none = some none
parsed_header msg (some r) = do
  first ← tok_at r.0 0
  if is_object first.kind
      then (jsmn_get_value msg r.0 (text "status") >>= header_from msg r.0)
      else some none

module _ (jsmn_parse : Bytes → ℕ → Option (List JsmnTok × ℕ)) where
  unfoldable pub parse_header : Bytes → Option (Option (PsnetStatus × ℕ))
  unfolding parsed_header
  parse_header msg = parsed_header msg (jsmn_parse msg 256)

pub data Family : Type 0 where
  af_inet af_inet6 : Family

-- `ipv == '4' ? AF_INET : AF_INET6`.
abbrev pub family_of : (ipv : ℕ) → Family
family_of ipv = if ipv == b'4' then af_inet else af_inet6

-- What inet_pton makes of an address of the family: the socket address with port 0.
abbrev pub InetPton : Type 0
InetPton = Family → Bytes → Option SockAddr

module _ (host : Host) (inet_pton : InetPton) where
  -- `parse_node` behind the checks of types: the new entry, or -1 (the inner `none`).
  unfoldable pub node_entry : (msg : Bytes) (ip port : JsmnTok) (ipv : ℕ) → Option (Option SockAddr)
  node_entry msg ip port ipv = copy_token 46 msg ip >>= λ s. elim (inet_pton (family_of ipv) s) [
    | none ↦ some none
    | some addr ↦ do
      t ← copy_token 46 msg port
      let r = strtol t
      some (
          if is_neg r.0 || (above r.0 port_max || not (is_empty r.1))
          then none
          else some (set_in_port addr (host.htons (to_port r.0))))
  ]

  unfoldable pub node_checked : (msg : Bytes) (ip port ipv : JsmnTok) → Option (Option SockAddr)
  unfolding node_entry
  node_checked msg ip port ipv =
      let v = char_at ipv.start msg in
      if (is_string ip.kind && is_primitive port.kind)
        && (is_digit (char_at port.start msg)
            && (is_primitive ipv.kind && ((v == b'4') || (v == b'6'))))
      then node_entry msg ip port v
      else some none

  -- `parse_node` behind `jsmn_get_values`.
  unfoldable pub node_at :
      (msg : Bytes) (node : List JsmnTok) → Option (List ℕ) → Option (Option SockAddr)
  unfolding node_checked
  node_at msg node (some (iip ∷ iport ∷ iipv ∷ [])) = do
    ip ← tok_at node iip
    port ← tok_at node iport
    ipv ← tok_at node iipv
    node_checked msg ip port ipv
  node_at msg node _ = some none

  unfoldable pub parse_node : (msg : Bytes) (node : List JsmnTok) → Option (Option SockAddr)
  unfolding node_at
  parse_node msg node =
      jsmn_get_values msg node (text "ip" ∷ text "port" ∷ text "ipv" ∷ []) >>= node_at msg node

  -- The loop of `parse_node_list`: `rest` are the tokens from `i` on. The result is whether it
  -- succeeds, and the list, which keeps what has been parsed before a failure. Each turn moves on by
  -- one token at least.
  unfoldable pub node_list_loop :
      (fuel : ℕ) (msg : Bytes) (rest : List JsmnTok) (i ntok : ℕ) (head : List SockAddr)
      → Option (Bool × List SockAddr)
  node_list_loop zero msg rest i ntok head = none
  node_list_loop (suc fuel) msg [] i ntok head = if ltb i ntok then none else some (true, head)
  node_list_loop (suc fuel) msg (t ∷ rest) i ntok head =
      let more = λ (addr : SockAddr). skip_value (t ∷ rest) 1 i ntok >>= λ r.
      node_list_loop fuel msg r.2 r.0 r.1 (head ++ addr ∷ []) in
      if ltb i ntok
      then if is_object t.kind && leb 6 t.size
        then (parse_node msg (t ∷ rest) >>= λ new. elim new [
          | none ↦ some (false, head)
          | some addr ↦ more addr
        ])
        else some (false, head)
      else some (true, head)

  -- `parse_node_list` behind `jsmn_parse`.
  unfoldable pub parsed_node_list :
      (head : List SockAddr) (msg : Bytes)
      → Option (List JsmnTok × ℕ)
      → Option (Bool × List SockAddr)
  unfolding node_list_loop
  parsed_node_list head msg none = some (false, head)
  parsed_node_list head msg (some ([], n)) = none
  parsed_node_list head msg (some (t ∷ rest, n)) =
      if is_array t.kind
      then node_list_loop (suc (length rest)) msg rest 1 (t.size + 1) head
      else some (false, head)

  module _ (jsmn_parse : Bytes → ℕ → Option (List JsmnTok × ℕ)) where
    -- `max_tok` is an int: without one for it the run is a fault, and with one the stack is taken to
    -- have room for the tokens. `nentries` is not negative.
    unfoldable pub parse_node_list :
        (head : List SockAddr) (msg : Bytes) (nentries : ℕ) → Option (Bool × List SockAddr)
    unfolding parsed_node_list
    parse_node_list head msg nentries =
        if ltb (1 + 10 * nentries) (2 ^ 31)
        then parsed_node_list head msg (jsmn_parse msg (1 + 10 * nentries))
        else none
