-- ===== src/Tests/Asked.antt =====
-- One peer announces itself to tracker/service.c, and a router asks for others.
use psnet.Prelude.{
  ℕ, ◌<◌, ◌^◌, ◌≡◌, ◌==◌, refl, arith, true, Option, some, List, [], ◌∷◌, ◌++◌, length,
  if◌then◌else◌,
}
use psnet.Libc.{Bytes, text, bytes_eq, decimal, strtol, char_at}
use psnet.Libc.Strings.{has_no_nul-HasNoNul}
use psnet.Ipv6.{SockAddr, inet, set_in_port, get_in_port, sockaddr_equals}
use psnet.DeltaList.{DeltaList}
use psnet.Client.{Host, client_table, make_client, delta_equals}
use psnet.Client.Wire.{client_list}
use psnet.Jsmn.{JsmnTok, jsmn_tokeq, jsmn_toklen}
use psnet.Jsmn.Tree.{primitive, string, object, nil, cons}
use psnet.Jsmn.Lookup.{field}
use psnet.Parse.{InetPton, parse_node_list}
use psnet.Parse.Listing.{AllListed, list_tokens}
use psnet.Protocol.{header_text}
use psnet.Protocol.Request.{discover_text}
use psnet.Connection.{ended}
use psnet.Connection.Session.{stream}
use psnet.Tracker.{handle_connection}
use psnet.Tracker.Datagram.{Document, parsed, request}
use psnet.Tracker.Discover.{discover_tokens}
use psnet.Tracker.Trace.{Event, datagram, clock_turn, run, Proceeds}
use psnet.Tracker.Asked.{question, known, still, run-question}

abbrev host : Host
host = record { htons = λ p. p; ntohs = λ p. p; inet_ntop = λ a. text "10.0.0.1" }

abbrev inet_pton : InetPton
inet_pton family s = some (inet 16777226 0)

abbrev peer : SockAddr
peer = inet 16777226 5555

abbrev router : SockAddr
router = inet 16777227 4000

abbrev connect : Bytes
connect = text "{\"method\":\"connect\",\"port\":5555}"

abbrev connect_document : Document
connect_document = some (
  object 0 32
      (cons (string 2 8) (cons (string 11 18) (cons (string 21 25) (cons (primitive 27 31) nil)))),
  [],
  5,
)

-- A parser that knows the connect of the peer, the request of the router, and the answer to it.
abbrev jsmn_parse : Bytes → ℕ → Option (List JsmnTok × ℕ)
jsmn_parse msg ntok =
    if bytes_eq msg connect
    then parsed connect_document
    else if char_at 0 msg == b'['
    then some (list_tokens host inet_pton 38 (peer ∷ []), 8)
    else some (discover_tokens 5 6666, 7)

abbrev events : List Event
events = datagram (inet 16777226 4000) connect connect_document ∷ clock_turn ∷ []

events-Proceeds : Proceeds host jsmn_parse [] events
unfolding request field jsmn_tokeq jsmn_toklen make_client strtol set_in_port bytes_eq
    sockaddr_equals delta_equals
events-Proceeds = (refl, (tt, omega arith, refl), tt)

known_runs : known host events router 5 6666 ≡ peer ∷ []
unfolding request field jsmn_tokeq jsmn_toklen make_client strtol set_in_port bytes_eq
    sockaddr_equals delta_equals
known_runs = refl

discover_runs : jsmn_parse (discover_text 5 6666) 256 ≡ some (discover_tokens 5 6666, 7)
unfolding discover_text bytes_eq
discover_runs = refl

length-known : length (client_list host (known host events router 5 6666)) < 2 ^ 64
unfolding request field jsmn_tokeq jsmn_toklen make_client strtol set_in_port bytes_eq
    sockaddr_equals delta_equals decimal get_in_port
length-known = omega arith

peer-AllListed : AllListed host inet_pton (known host events router 5 6666)
unfolding request field jsmn_tokeq jsmn_toklen make_client strtol set_in_port bytes_eq
    sockaddr_equals delta_equals get_in_port
peer-AllListed = (
  record {
    address = refl;
    fits = omega arith;
    no_nul = has_no_nul-HasNoNul (text "10.0.0.1") refl;
    port = refl;
    small = omega arith;
  },
  tt,
)

list_runs :
    jsmn_parse (client_list host (known host events router 5 6666)) 51
    ≡ some (list_tokens host inet_pton 38 (known host events router 5 6666), 8)
unfolding request field jsmn_tokeq jsmn_toklen make_client strtol set_in_port bytes_eq
    sockaddr_equals delta_equals
list_runs = refl

run-question_example :
    (t : DeltaList SockAddr) × (run host jsmn_parse client_table events ≡ some t)
    × (handle_connection host jsmn_parse still t router (stream (question 5 6666 ∷ []))
        ≡ ended t (
            header_text (length (client_list host (known host events router 5 6666)))
            ++ client_list host (known host events router 5 6666)))
    × (parse_node_list host inet_pton jsmn_parse []
          (client_list host (known host events router 5 6666))
          5
        ≡ some (true, known host events router 5 6666))
run-question_example =
    run-question host jsmn_parse inet_pton events router 5 6666 7 38 8 events-Proceeds (omega arith)
      (omega arith) discover_runs length-known peer-AllListed list_runs
