-- ===== src/Tracker/Discover.antt =====
-- The request of a router for other routers: the text of `psnet_raw_request_discover` of
-- common/protocol.c against `handle_connection` of tracker/service.c.
use psnet.Prelude.{
  ℕ, zero, suc, ◌+◌, ◌<◌, ◌^◌, ◌≡◌, refl, ◌∙◌, ap, arith, true, false, Option, some, List, [], ◌∷◌,
  ◌++◌, length, pos, above, to_int32, ◌>>=◌,
}
use psnet.Libc.{Bytes, text, decimal, c_string, atoi}
use psnet.Libc.Digits.{strtol-decimal_exact, to_int32_pos}
use psnet.Libc.Strings.{decimal-HasNoNul, c_string-nul}
use psnet.Ipv6.{SockAddr, set_in_port}
use psnet.DeltaList.{DeltaList}
use psnet.Client.{Host, port_max, to_port}
use psnet.Jsmn.{
  JsmnTok, jsmn_object, jsmn_get_value, get_value_loop, next_key, jsmn_tokeq, jsmn_toklen, from,
  tok_at,
}
use psnet.Parse.{parse_message, parsed_message}
use psnet.Parse.Nodes.{str, prim, from_past}
use psnet.Protocol.Request.{discover_text}
use psnet.Tracker.{
  set_nul, discover_from, process_discover, dispatch_request, handle_request, send_clients,
}

set_nul-append : (x : Bytes) (c : ℕ) (y : Bytes) → set_nul (length x) (x ++ c ∷ y) ≡ x ++ 0 ∷ y
set_nul-append [] c y = refl
set_nul-append (d ∷ x) c y = ap (λ l. d ∷ l) (set_nul-append x c y)

-- Behind the front of a message.
set_nul-behind : (a r : Bytes) (i j : ℕ) → i ≡ length a + j → set_nul i (a ++ r) ≡ a ++ set_nul j r
set_nul-behind [] r i j h = let e : i ≡ j = omega (arith, h) in ap (λ k. set_nul k r) e
set_nul-behind (c ∷ a) r zero j h = absurd (omega arith)
set_nul-behind (c ∷ a) r (suc i) j h = ap (λ l. c ∷ l) (set_nul-behind a r i j (omega (arith, h)))

-- The tokens of a request whose digits end at `n`, and at `p`.
abbrev pub request_tokens : (n p : ℕ) → List JsmnTok
request_tokens n p =
    record { kind = jsmn_object; start = 0; end = p + 1; size = 6 }
    ∷ str 2 8
    ∷ str 11 19
    ∷ str 22 25
    ∷ prim 27 n
    ∷ str (n + 2) (n + 6)
    ∷ prim (n + 8) p
    ∷ []

-- The look-ups in a message with the keys of the request.
module _ (m r₀ r₁ r₂ : Bytes) (n p : ℕ) (h₀ : from 2 m ≡ text "method\"" ++ r₀)
    (h₁ : from 22 m ≡ text "num\"" ++ r₁) (h₂ : from (n + 2) m ≡ text "port\"" ++ r₂) where
  method_found : jsmn_get_value m (request_tokens n p) (text "method") ≡ some (some 2)
  unfolding jsmn_get_value get_value_loop next_key
  method_found = rw h₀ refl

  num_found : jsmn_get_value m (request_tokens n p) (text "num") ≡ some (some 4)
  unfolding jsmn_get_value get_value_loop next_key
  num_found = rw (h₀, h₁) refl

  port_found : jsmn_get_value m (request_tokens n p) (text "port") ≡ some (some 6)
  unfolding jsmn_get_value get_value_loop next_key
  port_found = rw (h₀, h₁, h₂) refl

-- The peer that asks, from its address and the port that it names.
abbrev pub asker : Host → SockAddr → (port : ℕ) → SockAddr
asker host addr port = set_in_port addr (host.htons port)

module _ (num port : ℕ) where
  abbrev num_end : ℕ
  num_end = 27 + length (decimal num)

  abbrev port_end : ℕ
  port_end = num_end + 8 + length (decimal port)

  abbrev pub discover_tokens : List JsmnTok
  discover_tokens = request_tokens num_end port_end

  abbrev front : Bytes
  front = text "{\"method\":\"discover\",\"num\":"

  -- The message with a byte behind each number: `,` and `}`, or a NUL.
  abbrev message : (c d : ℕ) → Bytes
  message c d =
      front ++ (decimal num ++ (c ∷ (text "\"port\":" ++ (decimal port ++ (d ∷ text "\r\n\r\n")))))

  cut_num : (c d : ℕ) → set_nul num_end (message c d) ≡ message 0 d
  cut_num c d =
      set_nul-behind front _ num_end (length (decimal num)) refl
      ∙ ap (λ l. front ++ l) (set_nul-append (decimal num) c _)

  cut_port : (c d : ℕ) → set_nul port_end (message c d) ≡ message c 0
  cut_port c d =
      set_nul-behind front _ port_end (length (decimal num) + (8 + length (decimal port)))
        (omega arith)
      ∙ ap (λ l. front ++ l)
          (set_nul-behind (decimal num) _ _ (8 + length (decimal port)) refl
            ∙ ap (λ l. decimal num ++ l)
                (set_nul-behind (c ∷ text "\"port\":") _ _ (length (decimal port)) refl
                  ∙ ap (λ l. c ∷ (text "\"port\":" ++ l)) (set_nul-append (decimal port) d _)))

  at_port : (c d : ℕ) → from (num_end + 8) (message c d) ≡ decimal port ++ (d ∷ text "\r\n\r\n")
  at_port c d =
      from_past num_end (message c d) (c ∷ text "\"port\":") _
        (from_past 27 (message c d) (decimal num) _ refl)

  at_key :
      (c d : ℕ)
      → from (num_end + 2) (message c d)
        ≡ text "port\"" ++ (text ":" ++ (decimal port ++ (d ∷ text "\r\n\r\n")))
  at_key c d =
      from_past num_end (message c d) (c ∷ text "\"") _
        (from_past 27 (message c d) (decimal num) _ refl)

  -- What is behind a message is read as the number, up to the NUL.
  num_read : (d : ℕ) → c_string (from 27 (message 0 d)) ≡ decimal num
  num_read d = c_string-nul (decimal num) _ (decimal-HasNoNul num)

  port_read : (c : ℕ) → c_string (from (num_end + 8) (message c 0)) ≡ decimal port
  port_read c = ap c_string (at_port c 0) ∙ c_string-nul (decimal port) _ (decimal-HasNoNul port)

  port_number : port < 2 ^ 31 → atoi (decimal port) ≡ pos port
  port_number h =
      ap (λ r. to_int32 r.0) (strtol-decimal_exact port (omega arith)) ∙ to_int32_pos port h

  module _ (host : Host) (t : DeltaList SockAddr) (addr : SockAddr) where
    discover_from-asker :
        port < 2 ^ 16
        → discover_from host t addr (message 0 0) (prim 27 num_end) (prim (num_end + 8) port_end)
          ≡ send_clients host t (some (asker host addr port)) (decimal num)
    unfolding discover_from
    discover_from-asker h =
        let above_port : above (pos port) port_max ≡ false = ground arith in
        let small : to_port (pos port) ≡ port = omega arith in
        rw (port_read 0, port_number (omega arith), above_port, small, num_read 0) refl

    process_discover-asker :
        port < 2 ^ 16
        → process_discover host t addr (message b',' b'}') discover_tokens
          ≡ send_clients host t (some (asker host addr port)) (decimal num)
    unfolding process_discover tok_at
    process_discover-asker h =
        let num_at =
          num_found (message b',' b'}') _ _ _ num_end port_end refl refl (at_key b',' b'}') in
        let port_at =
          port_found (message 0 b'}') _ _ _ num_end port_end refl refl (at_key 0 b'}') in
        let cut : set_nul port_end (set_nul num_end (message b',' b'}')) ≡ message 0 0 =
          ap (set_nul port_end) (cut_num b',' b'}') ∙ cut_port 0 b'}' in
        rw (num_at, cut_num b',' b'}', port_at)
          (ap (λ m. discover_from host t addr m (prim 27 num_end) (prim (num_end + 8) port_end)) cut
            ∙ discover_from-asker h)

    dispatch_request-asker :
        (ntok n : ℕ)
        → port < 2 ^ 16
        → dispatch_request host t addr (message b',' b'}') ntok (some (discover_tokens, n, 2)) ≡ (
            send_clients host t (some (asker host addr port)) (decimal num) >>= λ s.
            some (s, n, true))
    unfolding dispatch_request tok_at jsmn_tokeq jsmn_toklen
    dispatch_request-asker ntok n h =
        ap (λ o. o >>= λ s. some (s, n, true)) (process_discover-asker h)

    -- A discover request of a router, whose tokens the parser gets right, has the tracker send as
    -- many clients as it asks for, but for the router itself.
    pub handle_request-asker :
        (jsmn_parse : Bytes → ℕ → Option (List JsmnTok × ℕ)) (ntok n : ℕ)
        → port < 2 ^ 16
        → jsmn_parse (discover_text num port) ntok ≡ some (discover_tokens, n)
        → handle_request host jsmn_parse t addr (discover_text num port) ntok ≡ (
            send_clients host t (some (asker host addr port)) (decimal num) >>= λ s.
            some (s, n, true))
    unfolding handle_request parse_message parsed_message tok_at discover_text
    handle_request-asker jsmn_parse ntok n h e =
        ap
          (λ o.
            parsed_message (discover_text num port) o
            >>= dispatch_request host t addr (discover_text num port) ntok)
          e
        ∙ rw (method_found (message b',' b'}') _ _ _ num_end port_end refl refl (at_key b',' b'}'))
            (dispatch_request-asker ntok n h)
