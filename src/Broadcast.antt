-- ===== src/Broadcast.antt =====
-- `process_broadcast` of router/service.c: a message is passed on once, and not too far.
pub mod Once
use psnet.Prelude.{
  ℕ, zero, suc, ◌+◌, ◌-◌, ◌%◌, Bool, true, false, ◌||◌, Option, none, some, List, [], ◌∷◌, ltb, leb,
  ◌==◌, ◌>>=◌, if◌then◌else◌, take,
}
use psnet.Libc.{Bytes, char_at, text}
use psnet.Ipv6.{SockAddr}
use psnet.DeltaList.{DeltaList}
use psnet.Client.{Datagram}
use psnet.MsgCache.{cache_msg}
use psnet.Router.{flood_message}
use psnet.Jsmn.{JsmnTok, jsmn_get_value, tok_at, from, jsmn_toklen}

abbrev pub max_hops : ℕ
max_hops = 4

-- What a broadcast reads and changes: the routers, the clients, the cache, and what has been sent.
pub record Node : Type 0 where
  pub routers : List SockAddr
  pub clients : DeltaList SockAddr
  pub cache : DeltaList Bytes
  pub sent : List Datagram

-- `msg[i]++`.
abbrev pub increment : ℕ → Bytes → Bytes
increment i [] = []
increment zero (b ∷ s) = (b + 1) ∷ s
increment (suc i) (b ∷ s) = b ∷ increment i s

-- `jsmn_tokdup`.
unfoldable pub jsmn_tokdup : Bytes → JsmnTok → Bytes
jsmn_tokdup msg tok = take (jsmn_toklen tok) (from tok.start msg)

-- The part of `process_broadcast` behind the look-ups. `len` bytes are passed on.
unfoldable pub broadcast_from :
    Node → (sender : SockAddr) (msg : Bytes) (len : ℕ) (hops id : JsmnTok) → Option Node
broadcast_from s sender msg len hops id =
    let v = char_at hops.start msg in
    let passed = increment hops.start msg in
    if ltb v b'0' || leb (b'0' + max_hops - 1) v
    then some s
    else (cache_msg s.cache (jsmn_tokdup passed id) >>= λ r.
        if r.0 == 0
        then (flood_message s.routers s.clients sender (take len passed) s.sent >>= λ sent.
            some (record s { cache = r.1; sent = sent }))
        else some (record s { cache = r.1 }))

-- `jsmn_get_values` looks both fields up before it tells of either.
unfoldable pub process_broadcast :
    Node → (sender : SockAddr) (msg : Bytes) (len : ℕ) (tok : List JsmnTok) → Option Node
process_broadcast s sender msg len tok = do
  hops ← jsmn_get_value msg tok (text "hops")
  id ← jsmn_get_value msg tok (text "id")
  elim hops [
    | none ↦ some s
    | some i ↦ elim id [
      | none ↦ some s
      | some j ↦ do h ← tok_at tok i; d ← tok_at tok j; broadcast_from s sender msg len h d
    ]
  ]
