-- ===== src/RouterService/Datagram.antt =====
-- What a datagram asks of a router, read in its document, and that `handle_message` of
-- router/service.c does what is asked.
use psnet.Prelude.{
  ℕ, ◌+◌, ◌-◌, ◌≡◌, refl, ◌∙◌, ap, Bool, true, false, ◌||◌, Option, none, some, List, ◌>>=◌, ltb,
  leb, ◌==◌, if◌then◌else◌, take,
}
use psnet.Libc.{Bytes, text, char_at}
use psnet.Ipv6.{SockAddr}
use psnet.DeltaList.{DeltaList, Rc, success}
use psnet.DeltaList.Operations.{delta_update}
use psnet.Client.{Host, make_client, add_client, client_ops}
use psnet.MsgCache.{cache_msg}
use psnet.Router.{flood_message}
use psnet.Jsmn.{JsmnTok, jsmn_get_value, jsmn_tokeq, tok_at}
use psnet.Jsmn.Tree.{Value, primitive, string, array, object, Values, root, tokens}
use psnet.Jsmn.Lookup.{field, index, IsPlace, jsmn_get_value-field, tok_at-root}
use psnet.Parse.{parse_message, parsed_message}
use psnet.Tracker.Datagram.{Document, parsed, sender_at}
use psnet.Broadcast.{max_hops, Node, increment, jsmn_tokdup, broadcast_from, process_broadcast}
use psnet.RouterService.{process_connect, dispatch_message, handle_message}

pub data Request : Type 0 where
  ignored : Request
  announces : SockAddr → Request
  spreads : (id payload : Bytes) → Request

abbrev announced : Option SockAddr → Request
announced none = ignored
announced (some c) = announces c

-- What is done for a request from `addr`: a message is passed on if its identifier is new.
abbrev pub carry : Node → SockAddr → Request → Option Node
carry s addr ignored = some s
carry s addr (announces c) =
    delta_update client_ops s.clients c >>= λ r. some (record s { clients = r.1 })
carry s addr (spreads id payload) = cache_msg s.cache id >>= λ r.
    if r.0 == 0
    then (flood_message s.routers s.clients addr payload s.sent >>= λ sent.
        some (record s { cache = r.1; sent = sent }))
    else some (record s { cache = r.1 })

abbrev succeed : ℕ × DeltaList SockAddr → Option (Rc × DeltaList SockAddr)
succeed r = some (success, r.1)

updated :
    (s : Node) (o : Option (ℕ × DeltaList SockAddr))
    → ((o >>= succeed) >>= λ r. some (record s { clients = r.1 }))
      ≡ (o >>= λ r. some (record s { clients = r.1 }))
updated s none = refl
updated s (some r) = refl

carry-if :
    (s : Node) (addr : SockAddr) (far : Bool) (id payload : Bytes)
    → (if far then some s else carry s addr (spreads id payload))
      ≡ carry s addr (if far then ignored else spreads id payload)
carry-if s addr true id payload = refl
carry-if s addr false id payload = refl

-- The number of hops is no digit, or the limit.
abbrev pub at_limit : (msg : Bytes) (hops : JsmnTok) → Bool
at_limit msg hops =
    ltb (char_at hops.start msg) b'0' || leb (b'0' + max_hops - 1) (char_at hops.start msg)

-- The message with one hop more, and the identifier in it.
abbrev pub hopped : (msg : Bytes) (len : ℕ) (hops : JsmnTok) → Bytes
hopped msg len hops = take len (increment hops.start msg)

abbrev pub identifier : (msg : Bytes) (hops id : JsmnTok) → Bytes
identifier msg hops id = jsmn_tokdup (increment hops.start msg) id

-- What a broadcast with these tokens asks for.
abbrev pub broadcast : (msg : Bytes) (len : ℕ) (hops id : JsmnTok) → Request
broadcast msg len hops id =
    if at_limit msg hops then ignored else spreads (identifier msg hops id) (hopped msg len hops)

module _ (host : Host) (addr : SockAddr) (msg : Bytes) (len : ℕ) where
  abbrev broadcast_at : (hops id : Option (ℕ × Value)) → Request
  broadcast_at (some h) (some i) = broadcast msg len (root h.1) (root i.1)
  broadcast_at _ _ = ignored

  abbrev by_method : Option (ℕ × Value) → Values → Request
  by_method none vs = ignored
  by_method (some m) vs =
      if jsmn_tokeq msg (root m.1) (text "connect")
      then announced (sender_at host addr msg (field msg (text "port") 1 vs))
      else if jsmn_tokeq msg (root m.1) (text "broadcast")
      then broadcast_at (field msg (text "hops") 1 vs) (field msg (text "id") 1 vs)
      else ignored

  unfoldable pub request : Document → Request
  request (some (object s e vs, more, n)) = by_method (field msg (text "method") 1 vs) vs
  request _ = ignored

  add_client-carry :
      (s : Node) (port : Bytes)
      → (add_client host s.clients addr port >>= λ r. some (record s { clients = r.1 }))
        ≡ carry s addr (announced (make_client host addr port))
  unfolding add_client
  add_client-carry s port = go (make_client host addr port) refl
    where
      go :
          (o : Option SockAddr)
          → make_client host addr port ≡ o
          → (add_client host s.clients addr port >>= λ r. some (record s { clients = r.1 }))
            ≡ carry s addr (announced o)
      go none e = rw (add_client, e) refl
      go (some c) e = rw (add_client, e) (updated s (delta_update client_ops s.clients c))

  process_connect-carry :
      (s : Node) (l : List JsmnTok) (p : Option (ℕ × Value))
      → jsmn_get_value msg l (text "port") ≡ some (index p)
      → IsPlace l p
      → process_connect host s addr msg l ≡ carry s addr (announced (sender_at host addr msg p))
  unfolding process_connect
  process_connect-carry s l none h i = rw h refl
  process_connect-carry s l (some (i, v)) h (more, e) =
      rw (h, tok_at-root i v l more e) (add_client-carry s _)

  broadcast_from-carry :
      (s : Node) (hops id : JsmnTok)
      → broadcast_from s addr msg len hops id ≡ carry s addr (broadcast msg len hops id)
  unfolding broadcast_from
  broadcast_from-carry s hops id =
      carry-if s addr _ (jsmn_tokdup (increment hops.start msg) id)
        (take len (increment hops.start msg))

  process_broadcast-carry :
      (s : Node) (l : List JsmnTok) (h i : Option (ℕ × Value))
      → jsmn_get_value msg l (text "hops") ≡ some (index h)
      → IsPlace l h
      → jsmn_get_value msg l (text "id") ≡ some (index i)
      → IsPlace l i
      → process_broadcast s addr msg len l ≡ carry s addr (broadcast_at h i)
  unfolding process_broadcast
  process_broadcast-carry s l none i p at_h q at_i = rw (p, q) refl
  process_broadcast-carry s l (some h) none p at_h q at_i = rw (p, q) refl
  process_broadcast-carry s l (some (h, v)) (some (i, w)) p (_, at_h) q (_, at_i) =
      rw (p, q, tok_at-root h v l _ at_h, tok_at-root i w l _ at_i)
        (broadcast_from-carry s (root v) (root w))

  branches-carry :
      (s : Node) (c d : Bool) (x y : Option Node) (p q : Request)
      → x ≡ carry s addr p
      → y ≡ carry s addr q
      → (if c then x else if d then y else some s)
        ≡ carry s addr (if c then p else if d then q else ignored)
  branches-carry s true d x y p q h k = h
  branches-carry s false true x y p q h k = k
  branches-carry s false false x y p q h k = refl

  by_method-carry :
      (s : Node) (start end n : ℕ) (vs : Values) (more : List JsmnTok) (m : Option (ℕ × Value))
      → IsPlace (tokens (object start end vs) more) m
      → dispatch_message host s addr msg len
          (elim (index m) [ none ↦ none | some i ↦ some (tokens (object start end vs) more, n, i) ])
        ≡ carry s addr (by_method m vs)
  unfolding dispatch_message
  by_method-carry s start end n vs more none at_m = refl
  by_method-carry s start end n vs more (some (i, v)) (_, at_m) =
      let l = tokens (object start end vs) more in
      let (port, at_port) = jsmn_get_value-field msg (text "port") start end vs more in
      let (hops, at_hops) = jsmn_get_value-field msg (text "hops") start end vs more in
      let (id, at_id) = jsmn_get_value-field msg (text "id") start end vs more in
      rw (tok_at-root i v l _ at_m) (
        branches-carry s (jsmn_tokeq msg (root v) (text "connect"))
          (jsmn_tokeq msg (root v) (text "broadcast")) _ _ _ _
          (process_connect-carry s l (field msg (text "port") 1 vs) port at_port)
          (process_broadcast-carry s l (field msg (text "hops") 1 vs) (field msg (text "id") 1 vs)
            hops at_hops id at_id))

  parsed_message-carry :
      (s : Node) (d : Document)
      → (parsed_message msg (parsed d) >>= dispatch_message host s addr msg len)
        ≡ carry s addr (request d)
  unfolding parsed_message dispatch_message tok_at tokens request
  parsed_message-carry s none = refl
  parsed_message-carry s (some (primitive b e, more, n)) = refl
  parsed_message-carry s (some (string b e, more, n)) = refl
  parsed_message-carry s (some (array b e vs, more, n)) = refl
  parsed_message-carry s (some (object b e vs, more, n)) =
      let (method, at_method) = jsmn_get_value-field msg (text "method") b e vs more in
      rw method (by_method-carry s b e n vs more (field msg (text "method") 1 vs) at_method)

module _ (host : Host) (jsmn_parse : Bytes → ℕ → Option (List JsmnTok × ℕ)) where
  -- On a message that the parser rejects or makes the tokens of a document, `handle_message` does
  -- what the document asks for, and nothing else.
  pub handle_message-request :
      (s : Node) (addr : SockAddr) (msg : Bytes) (len : ℕ) (d : Document)
      → jsmn_parse msg 256 ≡ parsed d
      → handle_message host jsmn_parse s addr msg len ≡ carry s addr (request host addr msg len d)
  unfolding handle_message parse_message
  handle_message-request s addr msg len d h =
      ap (λ o. parsed_message msg o >>= dispatch_message host s addr msg len) h
      ∙ parsed_message-carry host addr msg len s d
