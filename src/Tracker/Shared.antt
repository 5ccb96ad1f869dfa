-- ===== src/Tracker/Shared.antt =====
-- Two IPv6 routers of one network at the tracker: udp_server_main of common/server.c takes them for
-- one, and so does its table.
use psnet.Prelude.{ℕ, ◌^◌, ◌%◌, Option, List}
use psnet.Libc.{Bytes}
use psnet.Ipv6.{SockAddr, inet6, set_in_port}
use psnet.DeltaList.{DeltaList}
use psnet.Client.{Host}
use psnet.Protocol.{connect_text}
use psnet.Jsmn.{JsmnTok}
use psnet.Server.Datagrams.{msg_info_of}
use psnet.Tracker.{handle_message}

module _ (host : Host) where
  client_of : (addr : SockAddr) (port : ℕ) → SockAddr
  client_of addr port = set_in_port addr (host.htons (port % 2 ^ 16))

  module _ (jsmn_parse : Bytes → ℕ → Option (List JsmnTok × ℕ)) where
    -- What the handler of a datagram from an IPv6 router makes of the table.
    abbrev pub arrive :
        DeltaList SockAddr → (stale addr : Bytes) (p port : ℕ) → Option (DeltaList SockAddr)
    arrive t stale addr p port =
        let i = msg_info_of stale (connect_text port) (inet6 addr p) in
        handle_message host jsmn_parse t i.addr i.msg
