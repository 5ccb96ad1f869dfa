-- ===== src/Tests/Routers.antt =====
-- The theorems of router/router.c, and of the broadcast of router/service.c, at concrete inputs.
use psnet.Prelude.{ℕ, Option, none, List, ◌%◌, ◌≡◌, some, [], ◌∷◌, ◌++◌, map, arith, pos}
use psnet.Libc.{Bytes, text}
use psnet.Ipv6.{SockAddr, inet}
use psnet.DeltaList.Whole.{new-Represents}
use psnet.Client.{Host, client_ops, client_table}
use psnet.Client.Nodes.{wire, joined}
use psnet.Client.Wire.{client_object}
use psnet.Jsmn.{JsmnTok}
use psnet.Tracker.Connect.{connect_tokens}
use psnet.Parse.{Family}
use psnet.Protocol.Request.{Calls, psnet_request}
use psnet.Router.Updates.{update_routers-never}
use psnet.Router.{faulted, update_routers, flood_message, routers_to_json}
use psnet.Router.Flood.{flood_message-reached}
use psnet.Router.Json.{IsHost, routers_to_json-wire}

-- A host of big-endian byte order.
abbrev host : Host
host = record { htons = λ p. p; ntohs = λ p. p % 65536; inet_ntop = λ a. text "10.0.0.1" }

host-IsHost : IsHost host
host-IsHost = record { length-inet_ntop = λ a. omega arith; ntohs_bound = λ p. omega arith }

abbrev near : SockAddr
near = inet 1 6666

abbrev far : SockAddr
far = inet 2 6666

-- A message from the address 1 goes back there, and not to the address 2.
flood_message-reached_example :
    flood_message (near ∷ far ∷ []) client_table (inet 1 4000) (text "hello") []
    ≡ some (record { to = near; payload = text "hello" } ∷ [])
flood_message-reached_example =
    flood_message-reached (near ∷ far ∷ []) client_table [] 1 4000 (text "hello") []
      (new-Represents client_ops 1 10 (omega arith) (omega arith))

-- Twice the tracker cannot be reached (ECONNREFUSED), then it can.
abbrev refused : Calls
refused = record { socket = none; connect = some 111; rv = pos 0 }

abbrev connected : Calls
connected = record { socket = none; connect = none; rv = pos 0 }

abbrev no_address : Family → Bytes → Option SockAddr
no_address family s = none

abbrev no_tokens : Bytes → ℕ → Option (List JsmnTok × ℕ)
no_tokens msg ntok = none

update_routers-never_example :
    update_routers host no_address no_tokens (refused ∷ refused ∷ connected ∷ []) 6666 (far ∷ []) []
    ≡ faulted
unfolding psnet_request
update_routers-never_example =
    update_routers-never host no_address no_tokens (refused ∷ refused ∷ connected ∷ []) 6666
      (far ∷ []) [] (omega arith)

routers_to_json-wire_example :
    wire (routers_to_json host (near ∷ far ∷ []) [] (pos 1))
    ≡ text "[" ++ (joined (map (client_object host) (near ∷ far ∷ [])) ++ text "]\r\n\r\n")
routers_to_json-wire_example = routers_to_json-wire host host-IsHost (near ∷ far ∷ []) (pos 1)

-- A parser that knows one connect.
abbrev knows_connect : Bytes → ℕ → Option (List JsmnTok × ℕ)
knows_connect msg ntok = some (connect_tokens 7777, 5)
