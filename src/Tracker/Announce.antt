-- ===== src/Tracker/Announce.antt =====
-- From the router's `psnet_send_connect` of common/protocol.c to the table of the tracker: the
-- datagram goes through the loop of udp_server_main of common/server.c to `handle_message` of
-- tracker/service.c.
use psnet.Prelude.{
  ℕ, ◌<◌, ◌≤◌, ◌^◌, ◌≡◌, ap, arith, true, false, Option, some, List, [], ◌∷◌, ◌>>=◌, length, pos,
}
use psnet.Libc.{Bytes, text, decimal}
use psnet.Libc.Digits.{length-decimal}
use psnet.Ipv6.{SockAddr, inet}
use psnet.DeltaList.{DeltaList}
use psnet.Client.{Host, Datagram, add_client}
use psnet.Network.Udp.{took, udp_send}
use psnet.Protocol.{connect_text}
use psnet.Protocol.Request.{psnet_send_connect, psnet_send_connect-udp_send, length-around}
use psnet.Jsmn.{JsmnTok}
use psnet.Server.{Server, reached}
use psnet.Server.Datagrams.{datagram, MsgInfo, udp_turn, udp_turn-inet}
use psnet.Tracker.{handle_message}
use psnet.Tracker.Connect.{connect_tokens, handle_message-connect}

pub length-connect_text : (port : ℕ) → port < 2 ^ 16 → length (connect_text port) ≤ 511
unfolding connect_text
length-connect_text port h = omega (
  arith,
  length-decimal 4 port (omega arith),
  length-around (text "{\"method\":\"connect\",\"port\":") (text "}") port,
)

module _ (host : Host) (jsmn_parse : Bytes → ℕ → Option (List JsmnTok × ℕ)) where
  -- `psnet_send_connect` sends one datagram, if sendto takes it; when it arrives from an IPv4 address
  -- at the tracker, whose limit of threads is not reached and whose pthread_create makes a thread, a
  -- handler gets it, and adds the sender at the port that the router has named, and no more. The
  -- parser gets the tokens of the message right.
  pub psnet_send_connect-handle_message :
      (t : DeltaList SockAddr) (ent : SockAddr) (port rc : ℕ) (max_threads : ℕ) (stale : Bytes)
      (a p : ℕ) (s : Server)
      → port < 2 ^ 16
      → reached max_threads s.num_threads ≡ false
      → jsmn_parse (connect_text port) 256 ≡ some (connect_tokens port, 5)
      → (d : Datagram) × (psnet_send_connect (took rc) ent port [] ≡ some (pos rc, d ∷ []))
        × (i : MsgInfo) × ((udp_turn max_threads stale true (datagram d.payload (inet a p)) s).1
            ≡ some i)
        × (handle_message host jsmn_parse t i.addr i.msg
            ≡ (add_client host t (inet a p) (decimal port) >>= λ r. some r.1))
  unfolding udp_send
  psnet_send_connect-handle_message t ent port rc max_threads stale a p s h k e = (
    record { to = ent; payload = connect_text port },
    (psnet_send_connect-udp_send (took rc) ent port [] h).0,
    record { addr = inet a p; msg = connect_text port; len = length (connect_text port) },
    ap (λ q. q.1)
        (udp_turn-inet max_threads stale (connect_text port) a p s k (length-connect_text port h)),
    handle_message-connect host jsmn_parse t (inet a p) port e,
  )
