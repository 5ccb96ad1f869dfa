-- ===== src/RouterService.antt =====
-- router/service.c: the requests of a router.
--
-- As in the tracker, a request over TCP returns the bytes that are sent, on a socket that accepts
-- them, and `jsmn_parse` is a parameter.
pub mod Connect
pub mod Datagram
pub mod Overlay
pub mod Trace
pub mod Passing
pub mod Once
pub mod Lease
use psnet.Network.{Arrival}
use psnet.Connection.{Outcome, serve_connection}
use psnet.Prelude.{
  ℕ, pos, to_int32, Bool, true, false, Option, none, some, List, [], ◌++◌, ◌>>=◌, if◌then◌else◌,
  length,
}
use psnet.Libc.{Bytes, text, decimal, decimal_int, atoi, c_string}
use psnet.Ipv6.{SockAddr}
use psnet.Client.{Host, add_client, client_list_size}
use psnet.Client.Nodes.{wire}
use psnet.MsgCache.{msg_cache_size}
use psnet.Protocol.{header_text, error_text, make_response_with_body}
use psnet.Router.{is_zero, routers_to_json}
use psnet.Jsmn.{JsmnTok, jsmn_get_value, jsmn_tokeq, tok_at, from}
use psnet.Tracker.{set_nul}
use psnet.Parse.{parse_message}
use psnet.Broadcast.{Node, process_broadcast}

pub data InputError : Type 0 where
  enomethod enonum ebadmethod ebadnum : InputError

unfoldable pub node_error : InputError → Bytes
node_error enomethod = error_text 0 (text "no method given")
node_error enonum = error_text 1 (text "missing argument 'num'")
node_error ebadmethod = error_text 2 (text "unrecognized method")
node_error ebadnum = error_text 3 (text "invalid argument 'num'")

abbrev pub with_header : Bytes → Bytes
with_header rsp = header_text (length rsp) ++ rsp

unfoldable pub process_info : Node → Bytes
process_info s = with_header (
    text "{\"name\":\"generic psnet router\",\"clients\":"
    ++ (decimal_int (to_int32 (pos (client_list_size s.clients)))
        ++ (text ",\"cache-load\":"
            ++ (decimal_int (to_int32 (pos (msg_cache_size s.cache))) ++ text "}\r\n\r\n"))))

unfoldable pub process_ping : Bytes
process_ping = text "{\"status\":\"okay\"}\r\n\r\n"

module _ (host : Host) where
  unfoldable pub process_ip : SockAddr → Bytes
  process_ip addr = with_header (text "{\"ip\":\"" ++ (host.inet_ntop addr ++ text "\"}\r\n\r\n"))

  unfoldable pub process_connect : Node → SockAddr → Bytes → List JsmnTok → Option Node
  process_connect s addr msg tok = jsmn_get_value msg tok (text "port") >>= λ found. elim found [
    | none ↦ some s
    | some port ↦ do
      v ← tok_at tok port
      (_, t) ← add_client host s.clients addr (c_string (from v.start (set_nul v.end msg)))
      some (record s { clients = t })
  ]

  -- The number is read where it stands, without a NUL behind it.
  unfoldable pub process_discover : Node → Bytes → List JsmnTok → Option Bytes
  process_discover s msg tok = jsmn_get_value msg tok (text "num") >>= λ found. elim found [
    | none ↦ some (node_error enonum)
    | some i ↦ do
      v ← tok_at tok i
      let num = atoi (c_string (from v.start msg))
      some (
          if is_zero num
          then node_error ebadnum
          else wire (make_response_with_body [] (routers_to_json host s.routers [] num)))
  ]

  -- `handle_connection` behind `parse_message`, with `len` as mi->len has it: the state, what is
  -- sent, the new `ntok`, and whether the connection goes on.
  unfoldable pub dispatch_request :
      Node
      → SockAddr
      → Bytes
      → (len ntok : ℕ) → Option (List JsmnTok × ℕ × ℕ)
      → Option (Node × Bytes × ℕ × Bool)
  dispatch_request s addr msg len ntok none = some (s, node_error enomethod, ntok, false)
  dispatch_request s addr msg len ntok (some p) = do
    method ← tok_at p.0 p.2
    if jsmn_tokeq msg method (text "broadcast")
        then (process_broadcast s addr msg len p.0 >>= λ s'. some (s', [], p.1, true))
        else if jsmn_tokeq msg method (text "ip")
        then some (s, process_ip addr, p.1, true)
        else if jsmn_tokeq msg method (text "info")
        then some (s, process_info s, p.1, true)
        else if jsmn_tokeq msg method (text "ping")
        then some (s, process_ping, p.1, true)
        else if jsmn_tokeq msg method (text "discover")
        then (process_discover s msg p.0 >>= λ out. some (s, out, p.1, true))
        else some (s, node_error ebadmethod, p.1, false)

  -- `handle_message` behind `parse_message`.
  unfoldable pub dispatch_message :
      Node → SockAddr → Bytes → (len : ℕ) → Option (List JsmnTok × ℕ × ℕ) → Option Node
  dispatch_message s addr msg len none = some s
  dispatch_message s addr msg len (some p) = do
    method ← tok_at p.0 p.2
    if jsmn_tokeq msg method (text "connect")
        then process_connect s addr msg p.0
        else if jsmn_tokeq msg method (text "broadcast")
        then process_broadcast s addr msg len p.0
        else some s

module _ (host : Host) (jsmn_parse : Bytes → ℕ → Option (List JsmnTok × ℕ)) where
  unfoldable pub handle_request :
      Node → SockAddr → Bytes → (len ntok : ℕ) → Option (Node × Bytes × ℕ × Bool)
  unfolding dispatch_request
  handle_request s addr msg len ntok =
      parse_message jsmn_parse msg ntok >>= dispatch_request host s addr msg len ntok

  unfoldable pub handle_message : Node → SockAddr → Bytes → (len : ℕ) → Option Node
  unfolding dispatch_message
  handle_message s addr msg len =
      parse_message jsmn_parse msg 256 >>= dispatch_message host s addr msg len

  -- `handle_connection`: the requests of `addr` over a socket. `between` is what other threads make of
  -- the state before each turn.
  unfoldable pub handle_connection :
      (between : ℕ → Node → Node) → Node → SockAddr → (len : ℕ) → List Arrival → Outcome Node
  unfolding handle_request serve_connection
  handle_connection between s addr len =
      serve_connection (λ s' msg ntok. handle_request s' addr msg len ntok) between s
