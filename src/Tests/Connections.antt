-- ===== src/Tests/Connections.antt =====
-- Connections to the tracker at concrete requests.
use psnet.Prelude.{
  ℕ, ◌≡◌, refl, arith, Bool, true, Option, none, some, List, [], ◌∷◌, ◌++◌, ltb, if◌then◌else◌,
  ◌>>=◌,
}
use psnet.Libc.{Bytes, text, c_string}
use psnet.Ipv6.{SockAddr, inet}
use psnet.DeltaList.{DeltaList}
use psnet.Client.{Host, client_table}
use psnet.Network.{closed}
use psnet.Network.Frame.{delimiter, is_plain-IsPlain}
use psnet.Jsmn.{
  JsmnTok, jsmn_object, jsmn_string, jsmn_get_value, get_value_loop, next_key, jsmn_tokeq,
  jsmn_toklen, tok_at,
}
use psnet.Parse.{parse_message, parsed_message}
use psnet.Connection.{connection_loop, ended, serve_connection}
use psnet.Connection.Session.{framed, stream, outcome, session, serve_connection-session}
use psnet.Connection.Ends.{Stops, serve_connection-Stops}
use psnet.Tracker.{
  enomethod, dir_error, process_info, dispatch_request, handle_request, handle_connection,
}
use psnet.Tracker.Twice.{handle_connection-second}

abbrev host : Host
host = record { htons = λ p. p; ntohs = λ p. p; inet_ntop = λ a. text "10.0.0.1" }

abbrev peer : SockAddr
peer = inet 16777226 4000

abbrev info_tokens : List JsmnTok
info_tokens =
    record { kind = jsmn_object; start = 0; end = 17; size = 2 }
    ∷ record { kind = jsmn_string; start = 2; end = 8; size = 0 }
    ∷ record { kind = jsmn_string; start = 11; end = 15; size = 0 }
    ∷ []

-- A parser that knows one message, and needs room for five tokens.
abbrev with_room : Bytes → ℕ → Option (List JsmnTok × ℕ)
with_room msg ntok = if ltb ntok 5 then none else some (info_tokens, 3)

abbrev unchanged : ℕ → DeltaList SockAddr → DeltaList SockAddr
unchanged turn t = t

abbrev info : Bytes
info = text "{\"method\":\"info\"}"

abbrev list : Bytes
list = text "{\"method\":\"list\",\"num\":5}"

info_runs :
    handle_request host with_room client_table peer (c_string (info ++ delimiter)) 256
    ≡ some (process_info client_table, 3, true)
unfolding handle_request dispatch_request parse_message parsed_message jsmn_get_value get_value_loop
    next_key jsmn_tokeq jsmn_toklen tok_at
info_runs = refl

handle_connection-second_example :
    handle_connection host with_room unchanged client_table peer
      (framed info (framed list (closed ∷ [])))
    ≡ ended client_table (process_info client_table ++ dir_error enomethod)
handle_connection-second_example =
    handle_connection-second host with_room unchanged peer client_table info list
      (process_info client_table) 3 (closed ∷ []) (is_plain-IsPlain info refl)
      (is_plain-IsPlain list refl) (omega arith) (omega arith) info_runs refl

abbrev asks_once : DeltaList SockAddr → Bytes → ℕ → Option (DeltaList SockAddr × Bytes × ℕ × Bool)
asks_once t msg ntok =
    handle_request host with_room t peer msg ntok >>= λ r. some (t, r.0, r.1, r.2)

-- The request and its delimiter are answered, and the end is seen, within 100 turns.
serve_connection-Stops_example :
    Stops (serve_connection asks_once unchanged client_table (framed info (closed ∷ [])))
    × Stops
        (connection_loop asks_once unchanged 100 0 client_table 256 (framed info (closed ∷ [])) [])
serve_connection-Stops_example =
    serve_connection-Stops asks_once unchanged client_table (framed info (closed ∷ [])) 100 tt
      (omega arith)

-- The second request is refused, and ends the connection in front of the third.
serve_connection-session_example :
    serve_connection asks_once unchanged client_table (stream (info ∷ list ∷ info ∷ []))
    ≡ outcome [] (session asks_once unchanged 0 client_table 256 (info ∷ list ∷ info ∷ []))
serve_connection-session_example =
    serve_connection-session asks_once unchanged client_table (info ∷ list ∷ info ∷ []) (
      is_plain-IsPlain info refl,
      omega arith,
      (is_plain-IsPlain list refl, omega arith, (is_plain-IsPlain info refl, omega arith, tt)),
    )
