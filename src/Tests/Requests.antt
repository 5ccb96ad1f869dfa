-- ===== src/Tests/Requests.antt =====
-- The requests of tracker/service.c at concrete messages.
use psnet.Prelude.{arith, pos, ℕ, ◌≡◌, refl, true, Option, some, List, [], ◌∷◌, ◌>>=◌}
use psnet.Libc.{Bytes, text, decimal}
use psnet.Ipv6.{SockAddr, inet}
use psnet.Client.{Host, client_table, add_client}
use psnet.Protocol.{error_text}
use psnet.Jsmn.{
  JsmnTok, jsmn_object, jsmn_string, jsmn_get_value, get_value_loop, next_key, jsmn_tokeq,
  jsmn_toklen, tok_at,
}
use psnet.Client.{Datagram}
use psnet.Network.Udp.{took}
use psnet.Protocol.Request.{psnet_send_connect}
use psnet.Server.{start}
use psnet.Server.Datagrams.{MsgInfo, datagram, udp_turn}
use psnet.Tracker.Announce.{psnet_send_connect-handle_message}
use psnet.DeltaList.{DeltaList}
use psnet.Parse.{parse_message, parsed_message}
use psnet.Tracker.{handle_message, handle_request, dispatch_request, process_list, dir_error}
use psnet.Tracker.Connect.{connect_tokens}

abbrev host : Host
host = record { htons = λ p. p; ntohs = λ p. p; inet_ntop = λ a. text "10.0.0.1" }

-- A parser that knows one message.
abbrev knows : List JsmnTok → Bytes → ℕ → Option (List JsmnTok × ℕ)
knows tokens msg ntok = some (tokens, 5)

abbrev peer : SockAddr
peer = inet 16777226 4000

psnet_send_connect-handle_message_example :
    (d : Datagram) × (psnet_send_connect (took 32) peer 6666 [] ≡ some (pos 32, d ∷ []))
    × (i : MsgInfo) × ((udp_turn 1000 [] true (datagram d.payload (inet 16777227 4000)) start).1
        ≡ some i)
    × (handle_message host (knows (connect_tokens 6666)) client_table i.addr i.msg
        ≡ (add_client host client_table (inet 16777227 4000) (decimal 6666) >>= λ r. some r.1))
psnet_send_connect-handle_message_example =
    psnet_send_connect-handle_message host (knows (connect_tokens 6666)) client_table peer 6666 32
      1000 [] 16777227 4000 start (omega arith) refl refl

-- A request without the number that it needs.
abbrev no_number : List JsmnTok
no_number =
    record { kind = jsmn_object; start = 0; end = 17; size = 2 }
    ∷ record { kind = jsmn_string; start = 2; end = 8; size = 0 }
    ∷ record { kind = jsmn_string; start = 11; end = 15; size = 0 }
    ∷ []

no_number_runs :
    handle_request host (knows no_number) client_table peer (text "{\"method\":\"list\"}") 256
    ≡ some (
      text "{\"status\":\"error\",\"code\":1,\"reason\":\"missing argument 'num'\"}\r\n\r\n",
      5,
      true,
    )
unfolding handle_request dispatch_request parse_message parsed_message process_list dir_error
    error_text decimal jsmn_get_value get_value_loop next_key jsmn_tokeq jsmn_toklen tok_at
no_number_runs = refl

-- What malloc has left.
abbrev stale : Bytes
stale = 0 ∷ 0 ∷ 0 ∷ 0 ∷ 0 ∷ 0 ∷ 0 ∷ 0 ∷ []

-- Two addresses of one network.
abbrev near : Bytes
near = 32 ∷ 1 ∷ 13 ∷ 184 ∷ 0 ∷ 0 ∷ 0 ∷ 1 ∷ 0 ∷ 0 ∷ 0 ∷ 0 ∷ 0 ∷ 0 ∷ 0 ∷ 1 ∷ []

abbrev far : Bytes
far = 32 ∷ 1 ∷ 13 ∷ 184 ∷ 0 ∷ 0 ∷ 0 ∷ 1 ∷ 0 ∷ 0 ∷ 0 ∷ 0 ∷ 0 ∷ 0 ∷ 0 ∷ 2 ∷ []
