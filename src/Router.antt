-- ===== src/Router.antt =====
-- router/router.c: the routers that a router knows, and the messages that it passes on.
--
-- The list of routers is under a mutex, so each function that uses it is one step.
pub mod Flood
pub mod Json
pub mod Keepalive
pub mod Updates
use psnet.Prelude.{
  ℕ, ◌+◌, ◌-◌, Bool, true, false, Option, none, some, List, [], ◌∷◌, ◌++◌, ◌>>=◌, ◌==◌,
  if◌then◌else◌, length, take, ℤ, pos, negsuc,
}
use psnet.Libc.{Bytes, text}
use psnet.Ipv6.{SockAddr, ip_addr_equals}
use psnet.DeltaList.{DeltaList}
use psnet.Jsmn.{JsmnTok}
use psnet.Parse.{InetPton}
use psnet.Protocol.Request.{Calls, psnet_request_discover}
use psnet.Client.{
  Host, ResponseNode, Datagram, string_node, client_json, trim_last, flood_to_clients,
}

-- `set_routers`: the nodes of the old list are freed, and those of the new one linked in.
unfoldable pub set_routers : (routers new : List SockAddr) → List SockAddr
set_routers routers [] = []
set_routers routers (r ∷ new) = r ∷ new

abbrev pub is_zero : ℤ → Bool
is_zero (pos n) = n == 0
is_zero (negsuc n) = false

-- How a turn of the outer loop of `router_update_thread` comes out: with the new routers, or by a
-- fault of memory; or it goes on with its attempts, with `tmp` and with the routers as they were.
pub data Update : Type 0 where
  updated : (routers : List SockAddr) → Update
  faulted : Update
  retrying : (tmp : List SockAddr) → Update

abbrev pub outdegree : ℕ
outdegree = 32

-- What follows an attempt; `again` is the rest of the loop.
unfoldable pub after_attempt :
    (routers : List SockAddr) (again : List SockAddr → Update) → Option (ℤ × List SockAddr) → Update
after_attempt routers again none = faulted
after_attempt routers again (some r) =
    if is_zero r.0 then updated (set_routers routers r.1) else again r.1

module _ (host : Host) (inet_pton : InetPton)
    (jsmn_parse : Bytes → ℕ → Option (List JsmnTok × ℕ)) where
  -- `attempts` has what the calls behind each `psnet_request_discover` answer, one after the other.
  unfoldable pub update_routers :
      (attempts : List Calls) (port : ℕ) (routers tmp : List SockAddr) → Update
  unfolding after_attempt
  update_routers [] port routers tmp = retrying tmp
  update_routers (c ∷ attempts) port routers tmp =
      after_attempt routers (λ tmp'. update_routers attempts port routers tmp')
        (psnet_request_discover host inet_pton jsmn_parse c tmp outdegree port)

-- The loop of `flood_message` over the routers.
unfoldable pub flood_routers :
    (routers : List SockAddr) (sender : SockAddr) (payload : Bytes) (sent : List Datagram)
    → List Datagram
flood_routers [] sender payload sent = sent
flood_routers (addr ∷ routers) sender payload sent =
    if ip_addr_equals addr sender
    then flood_routers routers sender payload sent
    else flood_routers routers sender payload (sent ++ record { to = addr; payload = payload } ∷ [])

unfoldable pub flood_message :
    (routers : List SockAddr) (clients : DeltaList SockAddr) (sender : SockAddr) (payload : Bytes)
    (sent : List Datagram)
    → Option (List Datagram)
flood_message routers clients sender payload sent =
    flood_to_clients clients payload (flood_routers routers sender payload sent)

module _ (host : Host) where
  -- `snprintf(node->data, ELM_STRLEN, ELM_FMT, ...)`; the format is that of `make_list`.
  unfoldable pub router_node : SockAddr → ResponseNode
  router_node addr =
      let s = client_json host addr in record { chars = take (26 + 46 + 5 - 1) s; len = length s }

  unfoldable pub router_nodes : List SockAddr → List ResponseNode
  router_nodes [] = []
  router_nodes (addr ∷ routers) = router_node addr ∷ router_nodes routers

  -- The argument `n` is not read.
  unfoldable pub routers_to_json :
      (routers : List SockAddr) (head : List ResponseNode) (n : ℤ) → List ResponseNode
  routers_to_json routers head n =
      trim_last (head ++ string_node (text "[") ∷ router_nodes routers)
      ++ string_node (text "]\r\n\r\n") ∷ []
