-- ===== src/RouterService/Connect.antt =====
-- What a router makes of a client's connect: the text that `psnet_send_connect` of common/protocol.c
-- sends, against `handle_message` of router/service.c.
use psnet.Prelude.{ℕ, ◌≡◌, ◌∙◌, ap, Option, some, List, ◌>>=◌}
use psnet.Libc.{Bytes, text, decimal}
use psnet.Ipv6.{SockAddr}
use psnet.Client.{Host, add_client}
use psnet.Protocol.{connect_text}
use psnet.Jsmn.{JsmnTok, jsmn_get_value, get_value_loop, next_key, jsmn_tokeq, jsmn_toklen, tok_at}
use psnet.Parse.{parse_message, parsed_message}
use psnet.Tracker.Connect.{connect_tokens, argument}
use psnet.Broadcast.{Node}
use psnet.RouterService.{process_connect, dispatch_message, handle_message}

module _ (host : Host) (jsmn_parse : Bytes → ℕ → Option (List JsmnTok × ℕ)) where
  -- A datagram of `psnet_send_connect` whose tokens the parser gets right makes the router add its
  -- sender, at the port that it names, to its clients; its routers, its cache and what it has sent
  -- stay as they are.
  pub handle_message-add_client :
      (s : Node) (addr : SockAddr) (n len : ℕ)
      → jsmn_parse (connect_text n) 256 ≡ some (connect_tokens n, 5)
      → handle_message host jsmn_parse s addr (connect_text n) len
        ≡ (add_client host s.clients addr (decimal n) >>= λ r. some (record s { clients = r.1 }))
  unfolding handle_message dispatch_message parse_message parsed_message process_connect
      connect_text jsmn_get_value get_value_loop next_key jsmn_tokeq jsmn_toklen tok_at
  handle_message-add_client s addr n len h =
      ap
        (λ o.
          parsed_message (connect_text n) o >>= dispatch_message host s addr (connect_text n) len)
        h
      ∙ ap (λ p. add_client host s.clients addr p >>= λ r. some (record s { clients = r.1 }))
          (argument (text "{\"method\":\"connect\",\"port\":") n)
