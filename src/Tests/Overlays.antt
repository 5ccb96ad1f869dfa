-- ===== src/Tests/Overlays.antt =====
-- A router of router/service.c with one peer and two routers, which gets one broadcast twice.
use psnet.Prelude.{ℕ, ◌≡◌, refl, arith, Option, some, List, [], ◌∷◌, if◌then◌else◌}
use psnet.Libc.{Bytes, text, bytes_eq, strtol}
use psnet.Ipv6.{SockAddr, inet, set_in_port, sockaddr_equals, ip_addr_equals}
use psnet.Client.{Host, make_client, delta_equals}
use psnet.Jsmn.{JsmnTok, jsmn_tokeq, jsmn_toklen}
use psnet.Jsmn.Tree.{root, primitive, string, object, nil, cons}
use psnet.Jsmn.Lookup.{field}
use psnet.Tracker.Datagram.{Document, parsed}
use psnet.MsgCache
use psnet.Broadcast.{Node, jsmn_tokdup}
use psnet.RouterService.{handle_message}
use psnet.RouterService.Datagram.{request, broadcast}
use psnet.RouterService.Overlay.{start, nothing_known, start-Shows}
use psnet.RouterService.Trace.{
  Event, datagram, clients_turn, cache_turn, new_routers, run, follow, Proceeds,
}
use psnet.RouterService.Once.{handle_message_once}

abbrev host : Host
host = record { htons = λ p. p; ntohs = λ p. p; inet_ntop = λ a. text "10.0.0.1" }

abbrev near : SockAddr
near = inet 1 4000

abbrev far : SockAddr
far = inet 2 4000

abbrev connect : Bytes
connect = text "{\"method\":\"connect\",\"port\":5555}"

abbrev connect_document : Document
connect_document = some (
  object 0 32
      (cons (string 2 8) (cons (string 11 18) (cons (string 21 25) (cons (primitive 27 31) nil)))),
  [],
  5,
)

abbrev fresh : Bytes
fresh = text "{\"method\":\"broadcast\",\"hops\":0,\"id\":7}"

-- The same message behind its first hop.
abbrev hopped : Bytes
hopped = text "{\"method\":\"broadcast\",\"hops\":1,\"id\":7}"

abbrev broadcast_document : Document
broadcast_document = some (
  object 0 38 (
      cons (string 2 8) (
        cons (string 11 20) (
          cons (string 23 27)
            (cons (primitive 29 30) (cons (string 32 34) (cons (primitive 36 37) nil)))))),
  [],
  7,
)

abbrev jsmn_parse : Bytes → ℕ → Option (List JsmnTok × ℕ)
jsmn_parse msg ntok =
    if bytes_eq msg connect then parsed connect_document else parsed broadcast_document

abbrev joins : Event
joins = datagram near connect 32 connect_document

abbrev arrives : Event
arrives = datagram near fresh 38 broadcast_document

abbrev returns : Event
returns = datagram far hopped 38 broadcast_document

abbrev events : List Event
events = joins ∷ new_routers (near ∷ far ∷ []) ∷ arrives ∷ cache_turn ∷ clients_turn ∷ returns ∷ []

-- What is left at the end: the message has gone to one router and to the peer, once.
follow_runs : follow host nothing_known events ≡ record {
  routers = near ∷ far ∷ [];
  peers = (inet 1 5555, 9) ∷ [];
  seen = (text "7", 10) ∷ [];
  sent =
      record { to = near; payload = hopped } ∷ record { to = inet 1 5555; payload = hopped } ∷ [];
}
unfolding request field jsmn_tokeq jsmn_toklen make_client strtol set_in_port bytes_eq
    sockaddr_equals delta_equals jsmn_tokdup MsgCache.delta_equals ip_addr_equals
follow_runs = refl

abbrev hops_token : JsmnTok
hops_token = root (primitive 29 30)

abbrev id_token : JsmnTok
id_token = root (primitive 36 37)

request-fresh :
    request host near fresh 38 broadcast_document ≡ broadcast fresh 38 hops_token id_token
unfolding request field jsmn_tokeq jsmn_toklen jsmn_tokdup
request-fresh = refl

request-hopped :
    request host far hopped 38 broadcast_document ≡ broadcast hopped 38 hops_token id_token
unfolding request field jsmn_tokeq jsmn_toklen jsmn_tokdup
request-hopped = refl

abbrev first_events : List Event
first_events = arrives ∷ joins ∷ cache_turn ∷ []

first-Proceeds : Proceeds host jsmn_parse nothing_known first_events
unfolding request field jsmn_tokeq jsmn_toklen make_client strtol set_in_port bytes_eq
    sockaddr_equals delta_equals jsmn_tokdup MsgCache.delta_equals
first-Proceeds = ((refl, (omega arith, refl)), ((refl, (tt, omega arith, refl)), (tt, tt)))

handle_message_once_example :
    (s₁ : Node) × (run host jsmn_parse start first_events ≡ some s₁)
    × (s₂ : Node) × (handle_message host jsmn_parse s₁ far hopped 38 ≡ some s₂)
    × (s₂.sent ≡ s₁.sent)
unfolding request field jsmn_tokeq jsmn_toklen make_client strtol set_in_port bytes_eq
    sockaddr_equals delta_equals jsmn_tokdup MsgCache.delta_equals
handle_message_once_example =
    handle_message_once host jsmn_parse start nothing_known near far fresh hopped 38 38
      broadcast_document broadcast_document (joins ∷ cache_turn ∷ []) hops_token id_token hops_token
      id_token start-Shows request-fresh refl refl request-hopped refl (omega arith) first-Proceeds
      (omega arith)

-- The broadcast returns after both clocks have turned.
abbrev before_events : List Event
before_events = joins ∷ new_routers (near ∷ far ∷ []) ∷ arrives ∷ cache_turn ∷ clients_turn ∷ []
