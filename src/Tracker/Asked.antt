-- ===== src/Tracker/Asked.antt =====
-- From the datagrams of the peers to a router's list of other routers: `handle_message`,
-- `handle_connection` of tracker/service.c, and `parse_node_list` of common/parse.c.
use psnet.Prelude.{
  ℕ, ◌+◌, ◌*◌, ◌<◌, ◌^◌, ◌≡◌, refl, ◌∙◌, ap, arith, true, Bool, Option, some, List, [], ◌∷◌, ◌++◌,
  append_assoc, append-nil, map, length, length-append, take, ◌>>=◌,
}
use psnet.Libc.{Bytes, text, decimal, c_string}
use psnet.Libc.Digits.{length-decimal}
use psnet.Libc.Strings.{
  HasNoNul, decimal-HasNoNul, c_string_whole, HasNoNul-append, has_no_nul-HasNoNul,
}
use psnet.Ipv6.{SockAddr}
use psnet.DeltaList.{DeltaList}
use psnet.DeltaList.Queue.{Entry}
use psnet.DeltaList.Delete.{Represents}
use psnet.Client.{Host, client_ops, client_table}
use psnet.Client.Wire.{client_list, others, values, clients_to_json-wire}
use psnet.Network.Frame.{delimiter, IsPlain, is_plain-IsPlain}
use psnet.Protocol.Header.{IsPlain-append, decimal-IsPlain}
use psnet.Protocol.{header_text}
use psnet.Protocol.Response.{wire-make_response}
use psnet.Protocol.Request.{discover_text}
use psnet.Jsmn.{JsmnTok}
use psnet.Parse.{InetPton, parse_node_list}
use psnet.Parse.Listing.{AllListed, list_tokens, parse_node_list-list_text}
use psnet.Connection.{ended}
use psnet.Connection.Session.{stream, session, serve_connection-session}
use psnet.Tracker.{send_clients, handle_request, handle_connection}
use psnet.Tracker.Discover.{asker, discover_tokens, handle_request-asker}
use psnet.Tracker.Trace.{Event, run, follow, Proceeds, run-follow, peers-values}

-- The request of a router, without the delimiter.
abbrev pub question : (num port : ℕ) → Bytes
question num port =
    text "{\"method\":\"discover\",\"num\":"
    ++ (decimal num ++ (text ",\"port\":" ++ (decimal port ++ text "}")))

question-delimited : (num port : ℕ) → question num port ++ delimiter ≡ discover_text num port
unfolding discover_text
question-delimited num port =
    ap (λ l. text "{\"method\":\"discover\",\"num\":" ++ l)
      (append_assoc (decimal num) _ delimiter
        ∙ ap (λ l. decimal num ++ (text ",\"port\":" ++ l))
            (append_assoc (decimal port) _ delimiter))

discover_text-HasNoNul : (num port : ℕ) → HasNoNul (discover_text num port)
unfolding discover_text
discover_text-HasNoNul num port =
    HasNoNul-append (text "{\"method\":\"discover\",\"num\":") _
      (has_no_nul-HasNoNul (text "{\"method\":\"discover\",\"num\":") refl)
      (HasNoNul-append (decimal num) _ (decimal-HasNoNul num) (
        HasNoNul-append (text ",\"port\":") _ (has_no_nul-HasNoNul (text ",\"port\":") refl) (
          HasNoNul-append (decimal port) _ (decimal-HasNoNul port)
            (has_no_nul-HasNoNul (text "}\r\n\r\n") refl))))

send_clients-body :
    (host : Host) (t : DeltaList SockAddr) (es : List (Entry SockAddr)) (ign : Option SockAddr)
    (num : ℕ)
    → Represents client_ops t es
    → num < 2 ^ 31
    → length (client_list host (take num (others ign (values es)))) < 2 ^ 64
    → send_clients host t ign (decimal num)
      ≡ some (
          header_text (length (client_list host (take num (others ign (values es)))))
          ++ client_list host (take num (others ign (values es))))
unfolding send_clients
send_clients-body host t es ign num x h k =
    let (l, e, w, f) = clients_to_json-wire host t es ign num x h in
    rw e (
      ap some (
        wire-make_response l f (omega (arith, k, ap length w))
        ∙ ap (λ b. header_text (length b) ++ b) w))

question-IsPlain : (num port : ℕ) → IsPlain (question num port)
question-IsPlain num port =
    IsPlain-append (text "{\"method\":\"discover\",\"num\":") _
      (is_plain-IsPlain (text "{\"method\":\"discover\",\"num\":") refl)
      (IsPlain-append (decimal num) _ (decimal-IsPlain num) (
        IsPlain-append (text ",\"port\":") _ (is_plain-IsPlain (text ",\"port\":") refl) (
          IsPlain-append (decimal port) (text "}") (decimal-IsPlain port)
            (is_plain-IsPlain (text "}") refl))))

length-question :
    (num port : ℕ) → num < 2 ^ 31 → port < 2 ^ 16 → length (question num port) + 4 < 512
length-question num port h k =
    let n = length-decimal 9 num (omega arith) in
    let p = length-decimal 4 port (omega arith) in
    omega (
      arith,
      n,
      p,
      length-append (decimal num) (text ",\"port\":" ++ (decimal port ++ text "}")),
      length-append (decimal port) (text "}"),
    )

-- The peers that a request is answered with: so many of those that have announced themselves, the
-- longest ago first, but for the one that asks.
abbrev pub known : Host → List Event → (addr : SockAddr) (num port : ℕ) → List SockAddr
known host events addr num port =
    take num (others (some (asker host addr port)) (map (λ p. p.0) (follow host [] events)))

-- Between the turns of the connection nothing changes the table.
abbrev pub still : ℕ → DeltaList SockAddr → DeltaList SockAddr
still turn t = t

module _ (host : Host) (jsmn_parse : Bytes → ℕ → Option (List JsmnTok × ℕ)) where
  abbrev turn_of :
      SockAddr → DeltaList SockAddr → Bytes → ℕ → Option (DeltaList SockAddr × Bytes × ℕ × Bool)
  turn_of addr t msg ntok =
      handle_request host jsmn_parse t addr msg ntok >>= λ r. some (t, r.0, r.1, r.2)

  handle_connection-question :
      (t : DeltaList SockAddr) (addr : SockAddr) (num port n : ℕ) (answer : Bytes)
      → num < 2 ^ 31
      → port < 2 ^ 16
      → jsmn_parse (discover_text num port) 256 ≡ some (discover_tokens num port, n)
      → send_clients host t (some (asker host addr port)) (decimal num) ≡ some answer
      → handle_connection host jsmn_parse still t addr (stream (question num port ∷ []))
        ≡ ended t answer
  unfolding handle_connection session
  handle_connection-question t addr num port n answer h k e sent =
      let msg : c_string (question num port ++ delimiter) ≡ discover_text num port =
        ap c_string (question-delimited num port)
        ∙ c_string_whole (discover_text num port) (discover_text-HasNoNul num port) in
      serve_connection-session (turn_of addr) still t (question num port ∷ [])
        (question-IsPlain num port, length-question num port h k, tt)
      ∙ rw (msg, handle_request-asker num port host t addr jsmn_parse 256 n k e, sent)
          (ap (ended t) (append-nil answer))

  module _ (inet_pton : InetPton) where
    -- After any sequence of datagrams and turns of the clock, a router asks the tracker over a
    -- connection for so many other routers: what the tracker sends it is a header with the number of
    -- bytes and a list, from which `parse_node_list` reads just the first so many peers that have
    -- announced themselves and are neither withdrawn nor let go by the clock, without the one that
    -- asks. The number is one for which `max_tok` of parse_node_list, ten for each and one more, is an
    -- int. The events proceed as they do for `run-follow`, the parser gets the tokens of the request
    -- and of the list right, and each of these peers is one that inet_pton and htons read back.
    pub run-question :
        (events : List Event) (addr : SockAddr) (num port n end toknext : ℕ)
        → Proceeds host jsmn_parse [] events
        → 1 + 10 * num < 2 ^ 31
        → port < 2 ^ 16
        → jsmn_parse (discover_text num port) 256 ≡ some (discover_tokens num port, n)
        → length (client_list host (known host events addr num port)) < 2 ^ 64
        → AllListed host inet_pton (known host events addr num port)
        → jsmn_parse (client_list host (known host events addr num port)) (1 + 10 * num)
          ≡ some (list_tokens host inet_pton end (known host events addr num port), toknext)
        → (t : DeltaList SockAddr) × (run host jsmn_parse client_table events ≡ some t)
          × (handle_connection host jsmn_parse still t addr (stream (question num port ∷ []))
              ≡ ended t (
                  header_text (length (client_list host (known host events addr num port)))
                  ++ client_list host (known host events addr num port)))
          × (parse_node_list host inet_pton jsmn_parse []
                (client_list host (known host events addr num port))
                num
              ≡ some (true, known host events addr num port))
    run-question events addr num port n end toknext p h k e long listed f =
        let (t, done, l) = run-follow host jsmn_parse events p in
        let es = l.entries in
        let ign = some (asker host addr port) in
        let same : take num (others ign (values es)) ≡ known host events addr num port =
          ap (λ cs. take num (others ign cs)) (peers-values es ∙ ap (map (λ p. p.0)) l.view) in
        let body = ap (client_list host) same in
        let sent =
          send_clients-body host t es ign num l.settled.table (omega arith)
            (omega (arith, long, ap length body))
          ∙ ap (λ b. some (header_text (length b) ++ b)) body in
        (
          t,
          done,
          handle_connection-question t addr num port n _ (omega arith) k e sent,
          parse_node_list-list_text host inet_pton jsmn_parse [] (known host events addr num port)
              num end toknext listed h f,
        )
