-- ===== src/Tracker.antt =====
-- tracker/service.c: the requests of the tracker.
--
-- A handler of a TCP request returns the bytes that it sends; the socket is taken to accept them.
-- `jsmn_parse` is a parameter: from a message and the number of tokens there is room for, the tokens
-- with `toknext`, or `none` for an error.
pub mod Connect
pub mod Twice
pub mod Announce
pub mod Shared
pub mod Datagram
pub mod Table
pub mod Trace
pub mod Discover
pub mod Asked
pub mod Newest
pub mod Lease
use psnet.Prelude.{
  ℕ, to_int32, zero, suc, ◌+◌, ◌-◌, ◌%◌, ◌^◌, Bool, true, false, ◌||◌, Option, none, some, List, [],
  ◌∷◌, ◌++◌, ltb, leb, ◌==◌, ◌>>=◌, if◌then◌else◌, length, take, ℤ, pos, negsuc, is_neg, above,
  low32,
}
use psnet.Libc.{Bytes, text, decimal, decimal_int, atoi, c_string}
use psnet.Ipv6.{SockAddr, set_in_port}
use psnet.DeltaList.{DeltaList}
use psnet.Client.{
  Host, ClientRc, cl_ok, cl_badip, cl_badport, cl_badnum, cl_notfound, ResponseNode, port_max,
  to_port, add_client, remove_client, clients_to_json, client_list_size,
}
use psnet.Client.Nodes.{wire}
use psnet.Protocol.{header_text, error_text, make_response_with_body}
use psnet.Jsmn.{JsmnType, jsmn_object, JsmnTok, jsmn_get_value, jsmn_tokeq, tok_at, from}
use psnet.Parse.{parse_message}
use psnet.Network.{Arrival}
use psnet.Connection.{Outcome, serve_connection}

pub data InputError : Type 0 where
  enomethod enonum enoport ebadmethod ebadnum ebadport : InputError

abbrev pub error_number : InputError → ℕ
error_number enomethod = 0
error_number enonum = 1
error_number enoport = 2
error_number ebadmethod = 3
error_number ebadnum = 4
error_number ebadport = 5

abbrev pub psdir_strerror : InputError → Bytes
psdir_strerror enomethod = text "no method given"
psdir_strerror enonum = text "missing argument 'num'"
psdir_strerror enoport = text "missing argument 'port'"
psdir_strerror ebadmethod = text "unrecognized method"
psdir_strerror ebadnum = text "invalid argument 'num'"
psdir_strerror ebadport = text "invalid argument 'port'"

unfoldable pub dir_error : InputError → Bytes
dir_error e = error_text (error_number e) (psdir_strerror e)

-- `msg[i] = '\0'`.
abbrev pub set_nul : ℕ → Bytes → Bytes
set_nul i msg = take i msg ++ 0 ∷ from (suc i) msg

unfoldable pub process_info : DeltaList SockAddr → Bytes
process_info t =
    let rsp =
      text "{\"name\":\"generic psnet tracker\",\"routers\":"
      ++ (decimal_int (to_int32 (pos (client_list_size t))) ++ text "}\r\n\r\n") in
    header_text (length rsp) ++ rsp

abbrev pub is_ok : ClientRc → Bool
is_ok cl_ok = true
is_ok _ = false

module _ (host : Host) where
  -- `none` is a fault. The message is changed by the NUL at the end of the port.
  unfoldable pub process_connect :
      DeltaList SockAddr → SockAddr → Bytes → List JsmnTok → Option (DeltaList SockAddr)
  process_connect t addr msg tok = jsmn_get_value msg tok (text "port") >>= λ found. elim found [
    | none ↦ some t
    | some port ↦ do
      v ← tok_at tok port
      (_, t') ← add_client host t addr (c_string (from v.start (set_nul v.end msg)))
      some t'
  ]

  unfoldable pub process_disconnect :
      DeltaList SockAddr → SockAddr → Bytes → List JsmnTok → Option (DeltaList SockAddr)
  process_disconnect t addr msg tok = jsmn_get_value msg tok (text "port") >>= λ found. elim found [
    | none ↦ some t
    | some port ↦ do
      v ← tok_at tok port
      (_, t') ← remove_client host t addr (c_string (from v.start (set_nul v.end msg)))
      some t'
  ]

  -- What is sent for the list of clients, or for a bad number.
  unfoldable pub send_clients : DeltaList SockAddr → Option SockAddr → Bytes → Option Bytes
  send_clients t ign num = clients_to_json host t [] ign num >>= λ r.
      some (if is_ok r.0 then wire (make_response_with_body [] r.1) else dir_error ebadnum)

  unfoldable pub process_list : DeltaList SockAddr → Bytes → List JsmnTok → Option Bytes
  process_list t msg tok = jsmn_get_value msg tok (text "num") >>= λ found. elim found [
    | none ↦ some (dir_error enonum)
    | some num ↦ do
      v ← tok_at tok num
      send_clients t none (c_string (from v.start (set_nul v.end msg)))
  ]

  -- The part of `process_discover` behind the look-ups.
  unfoldable pub discover_from :
      DeltaList SockAddr → SockAddr → Bytes → (num port : JsmnTok) → Option Bytes
  discover_from t addr msg num port =
      let iport = atoi (c_string (from port.start msg)) in
      if is_neg iport || above iport port_max
      then some (dir_error ebadport)
      else send_clients t (some (set_in_port addr (host.htons (to_port iport))))
          (c_string (from num.start msg))

  unfoldable pub process_discover :
      DeltaList SockAddr → SockAddr → Bytes → List JsmnTok → Option Bytes
  process_discover t addr msg tok = jsmn_get_value msg tok (text "num") >>= λ found. elim found [
    | none ↦ some (dir_error enonum)
    | some num ↦ do
      v ← tok_at tok num
      let cut = set_nul v.end msg
      other ← jsmn_get_value cut tok (text "port")
      elim other [
        | none ↦ some (dir_error enoport)
        | some port ↦ do w ← tok_at tok port; discover_from t addr (set_nul w.end cut) v w
      ]
  ]

  -- `handle_message` behind `parse_message`.
  unfoldable pub dispatch_message :
      DeltaList SockAddr
      → SockAddr
      → Bytes
      → Option (List JsmnTok × ℕ × ℕ)
      → Option (DeltaList SockAddr)
  dispatch_message t addr msg none = some t
  dispatch_message t addr msg (some p) = do
    method ← tok_at p.0 p.2
    if jsmn_tokeq msg method (text "connect")
        then process_connect t addr msg p.0
        else if jsmn_tokeq msg method (text "disconnect")
        then process_disconnect t addr msg p.0
        else some t

  -- `handle_connection` behind `parse_message`: what is sent, the new `ntok`, and whether the
  -- connection goes on.
  unfoldable pub dispatch_request :
      DeltaList SockAddr
      → SockAddr
      → Bytes
      → ℕ
      → Option (List JsmnTok × ℕ × ℕ)
      → Option (Bytes × ℕ × Bool)
  dispatch_request t addr msg ntok none = some (dir_error enomethod, ntok, false)
  dispatch_request t addr msg ntok (some p) = do
    method ← tok_at p.0 p.2
    if jsmn_tokeq msg method (text "list")
        then (process_list t msg p.0 >>= λ s. some (s, p.1, true))
        else if jsmn_tokeq msg method (text "discover")
        then (process_discover t addr msg p.0 >>= λ s. some (s, p.1, true))
        else if jsmn_tokeq msg method (text "info")
        then some (process_info t, p.1, true)
        else some (dir_error ebadmethod, p.1, false)

module _ (host : Host) (jsmn_parse : Bytes → ℕ → Option (List JsmnTok × ℕ)) where
  -- `handle_message`: a datagram from `addr`.
  unfoldable pub handle_message :
      DeltaList SockAddr → SockAddr → Bytes → Option (DeltaList SockAddr)
  unfolding dispatch_message
  handle_message t addr msg = parse_message jsmn_parse msg 256 >>= dispatch_message host t addr msg

  -- One turn of the loop of `handle_connection` with a message that has been read.
  unfoldable pub handle_request :
      DeltaList SockAddr → SockAddr → Bytes → ℕ → Option (Bytes × ℕ × Bool)
  unfolding dispatch_request
  handle_request t addr msg ntok =
      parse_message jsmn_parse msg ntok >>= dispatch_request host t addr msg ntok

  -- `handle_connection`: the requests of `addr` over a socket. `between` is what other threads make of
  -- the table before each turn.
  unfoldable pub handle_connection :
      (between : ℕ → DeltaList SockAddr → DeltaList SockAddr)
      → DeltaList SockAddr
      → SockAddr
      → List Arrival
      → Outcome (DeltaList SockAddr)
  unfolding handle_request serve_connection
  handle_connection between t addr =
      serve_connection
        (λ t' msg ntok. handle_request t' addr msg ntok >>= λ r. some (t', r.0, r.1, r.2)) between t
