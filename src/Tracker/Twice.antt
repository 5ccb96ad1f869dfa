-- ===== src/Tracker/Twice.antt =====
-- Two requests over one connection to the tracker: `handle_connection` of tracker/service.c passes
-- the number of tokens of the first on as the room for the second.
use psnet.Prelude.{
  ℕ, suc, Bool, false, ◌+◌, ◌-◌, ◌<◌, ◌≡◌, refl, ◌∙◌, ap, arith, true, Option, none, some, List, [],
  ◌++◌, length, ◌>>=◌,
}
use psnet.Libc.{Bytes, c_string}
use psnet.Ipv6.{SockAddr}
use psnet.DeltaList.{DeltaList}
use psnet.Client.{Host}
use psnet.Network.{Arrival}
use psnet.Network.Frame.{delimiter, IsPlain}
use psnet.Jsmn.{JsmnTok}
use psnet.Parse.{parse_message, parsed_message}
use psnet.Connection.Session.{framed, framed-length, connection_loop-whole}
use psnet.Connection.{ended, after_request, connection_loop, serve_connection}
use psnet.Tracker.{enomethod, dir_error, dispatch_request, handle_request, handle_connection}

module _ (host : Host) (jsmn_parse : Bytes → ℕ → Option (List JsmnTok × ℕ))
    (between : ℕ → DeltaList SockAddr → DeltaList SockAddr) (addr : SockAddr) where
  abbrev request : DeltaList SockAddr → Bytes → ℕ → Option (DeltaList SockAddr × Bytes × ℕ × Bool)
  request t msg ntok =
      handle_request host jsmn_parse t addr msg ntok >>= λ r. some (t, r.0, r.1, r.2)

  -- The parser has no room: the request counts as one without a method.
  handle_request-none :
      (t : DeltaList SockAddr) (msg : Bytes) (ntok : ℕ)
      → jsmn_parse msg ntok ≡ none
      → request t msg ntok ≡ some (t, dir_error enomethod, ntok, false)
  unfolding handle_request dispatch_request parse_message parsed_message
  handle_request-none t msg ntok h = rw h refl

  connection_loop-second :
      (fuel : ℕ) (t : DeltaList SockAddr) (ntok : ℕ) (msg : Bytes) (rest : List Arrival)
      (out : Bytes)
      → IsPlain msg
      → length msg + 4 < 512
      → jsmn_parse (c_string (msg ++ delimiter)) ntok ≡ none
      → connection_loop request between (suc fuel) 1 t ntok (framed msg rest) out
        ≡ ended (between 1 t) (out ++ dir_error enomethod)
  unfolding after_request
  connection_loop-second fuel t ntok msg rest out p h e =
      connection_loop-whole request between fuel 1 t ntok msg rest out p h
      ∙ rw (handle_request-none (between 1 t) (c_string (msg ++ delimiter)) ntok e) refl

  -- When a request has been answered, the number `n` of its tokens is the room for those of the next
  -- one on the connection: if that has more of them, so that the parser fails, the tracker answers
  -- that no method is given, and ends the connection.
  pub handle_connection-second :
      (t : DeltaList SockAddr) (first second sent : Bytes) (n : ℕ) (rest : List Arrival)
      → IsPlain first
      → IsPlain second
      → length first + 4 < 512
      → length second + 4 < 512
      → handle_request host jsmn_parse (between 0 t) addr (c_string (first ++ delimiter)) 256
        ≡ some (sent, n, true)
      → jsmn_parse (c_string (second ++ delimiter)) n ≡ none
      → handle_connection host jsmn_parse between t addr (framed first (framed second rest))
        ≡ ended (between 1 (between 0 t)) (sent ++ dir_error enomethod)
  unfolding handle_connection serve_connection after_request
  handle_connection-second t first second sent n rest p q h k e f =
      let arrivals = framed first (framed second rest) in
      let m = length arrivals - 1 in
      let long = framed-length first (framed second rest) in
      let fuel : length arrivals ≡ suc m = omega (arith, long) in
      ap (λ j. connection_loop request between (suc j) 0 t 256 arrivals []) fuel
      ∙ connection_loop-whole request between (suc m) 0 t 256 first (framed second rest) [] p h
      ∙ rw e (connection_loop-second m (between 0 t) n second rest sent q k f)
