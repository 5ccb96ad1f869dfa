-- ===== src/Tracker/Connect.antt =====
-- What the tracker makes of the messages that a router sends to it: `psnet_send_connect` and
-- `psnet_send_disconnect` of common/protocol.c against `handle_message` of tracker/service.c.
use psnet.Prelude.{
  take-append, ℕ, suc, ◌+◌, ◌≡◌, ◌∙◌, ap, Option, some, List, [], ◌∷◌, ◌++◌, arith, ◌>>=◌, length,
  take,
}
use psnet.Libc.{Bytes, text, decimal, c_string}
use psnet.Libc.Strings.{decimal-HasNoNul, c_string-nul}
use psnet.Ipv6.{SockAddr}
use psnet.DeltaList.{DeltaList}
use psnet.Client.{Host, add_client, remove_client}
use psnet.Protocol.{connect_text, disconnect_text}
use psnet.Jsmn.{
  JsmnTok, jsmn_primitive, jsmn_object, jsmn_string, jsmn_get_value, get_value_loop, next_key,
  jsmn_tokeq, jsmn_toklen, tok_at, from,
}
use psnet.Parse.{parse_message, parsed_message}
use psnet.Tracker.{set_nul, process_connect, process_disconnect, dispatch_message, handle_message}

cut_argument :
    (p s r u : Bytes)
    → from (length p) (take (length p + length s) (p ++ (s ++ r)) ++ 0 ∷ u) ≡ s ++ 0 ∷ u
cut_argument [] s r u =
    let e : 0 + length s ≡ length s = omega arith in
    ap (λ k. take k (s ++ r) ++ 0 ∷ u) e ∙ ap (λ l. l ++ 0 ∷ u) (take-append s r)
cut_argument (c ∷ p) s r u =
    let e : suc (length p) + length s ≡ suc (length p + length s) = omega arith in
    ap (λ k. from (suc (length p)) (take k (c ∷ (p ++ (s ++ r))) ++ 0 ∷ u)) e ∙ cut_argument p s r u

-- The number between its place and the NUL is read as it was written.
pub argument :
    (p : Bytes) (n : ℕ)
    → c_string
        (from (length p) (set_nul (length p + length (decimal n)) (p ++ (decimal n ++ text "}"))))
      ≡ decimal n
argument p n =
    ap c_string (cut_argument p (decimal n) (text "}") _)
    ∙ c_string-nul (decimal n) _ (decimal-HasNoNul n)

-- The tokens of the two messages, as the parser documents them.
abbrev pub connect_tokens : ℕ → List JsmnTok
connect_tokens n =
    record { kind = jsmn_object; start = 0; end = 28 + length (decimal n); size = 4 }
    ∷ record { kind = jsmn_string; start = 2; end = 8; size = 0 }
    ∷ record { kind = jsmn_string; start = 11; end = 18; size = 0 }
    ∷ record { kind = jsmn_string; start = 21; end = 25; size = 0 }
    ∷ record { kind = jsmn_primitive; start = 27; end = 27 + length (decimal n); size = 0 }
    ∷ []

abbrev pub disconnect_tokens : ℕ → List JsmnTok
disconnect_tokens n =
    record { kind = jsmn_object; start = 0; end = 31 + length (decimal n); size = 4 }
    ∷ record { kind = jsmn_string; start = 2; end = 8; size = 0 }
    ∷ record { kind = jsmn_string; start = 11; end = 21; size = 0 }
    ∷ record { kind = jsmn_string; start = 24; end = 28; size = 0 }
    ∷ record { kind = jsmn_primitive; start = 30; end = 30 + length (decimal n); size = 0 }
    ∷ []

module _ (host : Host) (jsmn_parse : Bytes → ℕ → Option (List JsmnTok × ℕ)) where
  -- A datagram of `psnet_send_connect` whose tokens the parser gets right makes the tracker add its
  -- sender at the port that it names, and no more.
  pub handle_message-connect :
      (t : DeltaList SockAddr) (addr : SockAddr) (n : ℕ)
      → jsmn_parse (connect_text n) 256 ≡ some (connect_tokens n, 5)
      → handle_message host jsmn_parse t addr (connect_text n)
        ≡ (add_client host t addr (decimal n) >>= λ r. some r.1)
  unfolding handle_message dispatch_message parse_message parsed_message process_connect
      connect_text jsmn_get_value get_value_loop next_key jsmn_tokeq jsmn_toklen tok_at
  handle_message-connect t addr n h =
      ap (λ o. parsed_message (connect_text n) o >>= dispatch_message host t addr (connect_text n))
        h
      ∙ ap (λ s. add_client host t addr s >>= λ r. some r.1)
          (argument (text "{\"method\":\"connect\",\"port\":") n)

  -- A datagram of `psnet_send_disconnect` whose tokens the parser gets right makes the tracker remove
  -- its sender at the port that it names, and no more.
  pub handle_message-disconnect :
      (t : DeltaList SockAddr) (addr : SockAddr) (n : ℕ)
      → jsmn_parse (disconnect_text n) 256 ≡ some (disconnect_tokens n, 5)
      → handle_message host jsmn_parse t addr (disconnect_text n)
        ≡ (remove_client host t addr (decimal n) >>= λ r. some r.1)
  unfolding handle_message dispatch_message parse_message parsed_message process_disconnect
      disconnect_text jsmn_get_value get_value_loop next_key jsmn_tokeq jsmn_toklen tok_at
  handle_message-disconnect t addr n h =
      ap
        (λ o.
          parsed_message (disconnect_text n) o >>= dispatch_message host t addr (disconnect_text n))
        h
      ∙ ap (λ s. remove_client host t addr s >>= λ r. some r.1)
          (argument (text "{\"method\":\"disconnect\",\"port\":") n)
