-- ===== src/Tests/Traces.antt =====
-- Two peers at tracker/service.c: both connect, the first again, and the second disconnects.
use psnet.Prelude.{ℕ, ◌+◌, ◌≡◌, refl, arith, Option, none, some, true, List, [], ◌∷◌, if◌then◌else◌}
use psnet.Libc.{Bytes, text, bytes_eq, strtol, decimal}
use psnet.Ipv6.{SockAddr, inet, set_in_port, sockaddr_equals}
use psnet.DeltaList.{DeltaList}
use psnet.Client.{
  Host, client_table, make_client, delta_equals, ResponseNode, cl_ok, client_list_size,
  clients_to_json,
}
use psnet.Client.Nodes.{wire}
use psnet.Client.Wire.{client_list}
use psnet.Tracker.{handle_message}
use psnet.DeltaList.Operations.{delta_contains}
use psnet.Client.{client_ops}
use psnet.Tracker.Lease.{lease, run-lease}
use psnet.Tracker.Newest.{handle_message-latest}
use psnet.Jsmn.{JsmnTok, jsmn_tokeq, jsmn_toklen}
use psnet.Jsmn.Tree.{primitive, string, object, nil, cons}
use psnet.Jsmn.Lookup.{field}
use psnet.Tracker.Datagram.{Document, parsed, request}
use psnet.Tracker.Table.{ListsPeers}
use psnet.Tracker.Trace.{Event, datagram, clock_turn, run, Proceeds, follow, run-follow}

abbrev host : Host
host = record { htons = λ p. p; ntohs = λ p. p; inet_ntop = λ a. text "10.0.0.1" }

abbrev near : SockAddr
near = inet 16777226 4000

abbrev far : SockAddr
far = inet 16777227 4000

abbrev document : (method_end : ℕ) → Document
document e = some (
  object 0 (e + 14) (
      cons (string 2 8) (
        cons (string 11 e)
          (cons (string (e + 3) (e + 7)) (cons (primitive (e + 9) (e + 13)) nil)))),
  [],
  5,
)

abbrev jsmn_parse : Bytes → ℕ → Option (List JsmnTok × ℕ)
jsmn_parse msg ntok =
    if bytes_eq msg (text "{\"method\":\"connect\",\"port\":5555}")
    then parsed (document 18)
    else parsed (document 21)

abbrev connects : SockAddr → Event
connects addr = datagram addr (text "{\"method\":\"connect\",\"port\":5555}") (document 18)

abbrev disconnects : SockAddr → Event
disconnects addr = datagram addr (text "{\"method\":\"disconnect\",\"port\":5555}") (document 21)

abbrev events : List Event
events =
    connects near ∷ connects far ∷ clock_turn ∷ connects near ∷ disconnects far ∷ clock_turn ∷ []

events-Proceeds : Proceeds host jsmn_parse [] events
unfolding request field jsmn_tokeq jsmn_toklen make_client strtol set_in_port bytes_eq
    sockaddr_equals delta_equals
events-Proceeds = (
  refl,
  (tt, omega arith, refl),
  (refl, (tt, omega arith, refl), (refl, (tt, omega arith, refl), (refl, refl, tt))),
)

follow_runs : follow host [] events ≡ (inet 16777226 5555, 9) ∷ []
unfolding request field jsmn_tokeq jsmn_toklen make_client strtol set_in_port bytes_eq
    sockaddr_equals delta_equals
follow_runs = refl

run-follow_example :
    (t : DeltaList SockAddr) × (run host jsmn_parse client_table events ≡ some t)
    × ListsPeers t (follow host [] events)
run-follow_example = run-follow host jsmn_parse events events-Proceeds

abbrev two_events : List Event
two_events = connects near ∷ connects far ∷ []

two-Proceeds : Proceeds host jsmn_parse [] two_events
unfolding request field jsmn_tokeq jsmn_toklen make_client strtol set_in_port bytes_eq
    sockaddr_equals delta_equals
two-Proceeds = (refl, (tt, omega arith, refl), (refl, (tt, omega arith, refl), tt))

-- The table after both have connected.
abbrev two_peers :
    (t : DeltaList SockAddr) × (run host jsmn_parse client_table two_events ≡ some t)
    × ListsPeers t (follow host [] two_events)
two_peers = run-follow host jsmn_parse two_events two-Proceeds

-- The second connects again, and only the first is listed.
handle_message-latest_example :
    (t' : DeltaList SockAddr) × (handle_message host jsmn_parse two_peers.0 far
        (text "{\"method\":\"connect\",\"port\":5555}")
      ≡ some t')
    × (client_list_size t' ≡ 2)
    × (l : List ResponseNode) × (clients_to_json host t' [] none (decimal 10) ≡ some (cl_ok, l))
    × (wire l ≡ client_list host (inet 16777226 5555 ∷ []))
unfolding request field jsmn_tokeq jsmn_toklen make_client strtol set_in_port bytes_eq
    sockaddr_equals delta_equals
handle_message-latest_example =
    handle_message-latest host jsmn_parse two_peers.0 (inet 16777226 5555, 10) []
      (inet 16777227 5555) 10 far (text "{\"method\":\"connect\",\"port\":5555}") (document 18) none
      10 two_peers.2 refl refl tt (omega arith)

-- The first peer has announced itself again, one turn ago.
run-lease_example :
    (t : DeltaList SockAddr) × (run host jsmn_parse client_table events ≡ some t)
    × (delta_contains client_ops t (inet 16777226 5555) ≡ some true)
unfolding request field jsmn_tokeq jsmn_toklen make_client strtol set_in_port bytes_eq
    sockaddr_equals delta_equals
run-lease_example = run-lease host jsmn_parse events (inet 16777226 5555) events-Proceeds

-- The second is withdrawn.
lease_runs : lease host (inet 16777227 5555) 0 events ≡ 0
unfolding request field jsmn_tokeq jsmn_toklen make_client strtol set_in_port bytes_eq
    sockaddr_equals delta_equals
lease_runs = refl
