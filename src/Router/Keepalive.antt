-- ===== src/Router/Keepalive.antt =====
-- router/router.c: how a router starts, and announces itself to the tracker for as long as it runs.
use psnet.Prelude.{
  ℕ, suc, ◌<◌, ◌^◌, ◌≡◌, refl, ◌∙◌, sym, ap, true, false, arith, Option, none, some, List, [], ◌∷◌,
  ◌++◌, ◌>>=◌, ◌==◌, append_assoc, append-nil, if◌then◌else◌, length,
}
use psnet.Libc.{Bytes, atoi}
use psnet.Ipv6.{SockAddr}
use psnet.Ipv6.Equality.{IsInternet, sockaddr_equals_refl}
use psnet.DeltaList.{DeltaList, success}
use psnet.DeltaList.Operations.{delta_contains}
use psnet.DeltaList.Queue.{Entry}
use psnet.DeltaList.Spec.{is_newest}
use psnet.DeltaList.Settled.{IsSettled}
use psnet.DeltaList.Clock.{clock_thread, delta_update-stays}
use psnet.Client.{
  Host, Datagram, client_ops, client_table, delta_equals, make_client, add_client, to_port,
}
use psnet.Client.Key.{client_ops-IsKey}
use psnet.Network.Udp.{UdpAnswer, socket_failed, sendto_failed, took, udp_send}
use psnet.Protocol.{connect_text}
use psnet.Protocol.Request.{psnet_send_connect, psnet_send_connect-udp_send}

-- DIR_KEEPALIVE_INTERVAL, in seconds.
abbrev pub dir_keepalive_interval : ℕ
dir_keepalive_interval = 9

pub record TrackerArg : Type 0 where
  pub tracker : SockAddr
  pub port : ℕ

-- What the two threads are given; `none` is the return value -1. `found` is what psnet_new makes of
-- the tracker's name.
unfoldable pub router_init : (found : Option SockAddr) (listen_port : Bytes) → Option TrackerArg
router_init none listen_port = none
router_init (some tracker) listen_port =
    let port = to_port (atoi listen_port) in
    if port == 0 then none else some (record { tracker = tracker; port = port })

-- Turns of the loop of `router_keepalive_thread`, each with what the system answers; `out` are the
-- datagrams that have been sent.
unfoldable pub router_keepalive_thread :
    List UdpAnswer → TrackerArg → (out : List Datagram) → Option (List Datagram)
router_keepalive_thread [] a out = some out
router_keepalive_thread (answer ∷ answers) a out =
    psnet_send_connect answer a.tracker a.port out >>= λ r. router_keepalive_thread answers a r.1

-- One datagram for each turn in which the system takes it.
abbrev pub announcements : List UdpAnswer → TrackerArg → List Datagram
announcements [] a = []
announcements (socket_failed errno ∷ answers) a = announcements answers a
announcements (sendto_failed errno ∷ answers) a = announcements answers a
announcements (took rc ∷ answers) a =
    record { to = a.tracker; payload = connect_text a.port } ∷ announcements answers a

-- Whatever the system answers, the thread does not fault, and announces the port again in each turn.
pub router_keepalive_thread-announcements :
    (answers : List UdpAnswer) (a : TrackerArg) (out : List Datagram)
    → a.port < 2 ^ 16
    → router_keepalive_thread answers a out ≡ some (out ++ announcements answers a)
unfolding router_keepalive_thread udp_send
router_keepalive_thread-announcements [] a out h = ap some (sym (append-nil out))
router_keepalive_thread-announcements (socket_failed errno ∷ answers) a out h =
    rw (psnet_send_connect-udp_send (socket_failed errno) a.tracker a.port out h).0
      (router_keepalive_thread-announcements answers a out h)
router_keepalive_thread-announcements (sendto_failed errno ∷ answers) a out h =
    rw (psnet_send_connect-udp_send (sendto_failed errno) a.tracker a.port out h).0
      (router_keepalive_thread-announcements answers a out h)
router_keepalive_thread-announcements (took rc ∷ answers) a out h =
    rw (psnet_send_connect-udp_send (took rc) a.tracker a.port out h).0 (
      router_keepalive_thread-announcements answers a
        (out ++ record { to = a.tracker; payload = connect_text a.port } ∷ []) h
      ∙ ap some (
          append_assoc out (record { to = a.tracker; payload = connect_text a.port } ∷ [])
            (announcements answers a)))

module _ (host : Host) where
  -- A client that the tracker has added is still in its table when the router's thread announces it
  -- again: `dir_keepalive_interval` turns of the clock do not make it expire. The table has the
  -- interval of `client_table` and is in good order, the port is good, and the client is of an
  -- Internet family and not the newest of several.
  pub add_client-stays :
      (t : DeltaList SockAddr) (es : List (Entry SockAddr)) (addr client : SockAddr) (port : Bytes)
      → IsSettled client_ops t es
      → t.interval ≡ client_table.interval
      → suc (length es) < 2 ^ 32
      → make_client host addr port ≡ some client
      → IsInternet client
      → is_newest client_ops client es ≡ false
      → (t₁ : DeltaList SockAddr) × (add_client host t addr port ≡ some (success, t₁))
        × (t₂ : DeltaList SockAddr) × (clock_thread client_ops dir_keepalive_interval t₁ ≡ some t₂)
        × (delta_contains client_ops t₂ client ≡ some true)
  unfolding add_client delta_equals
  add_client-stays t es addr client port s n room e net old =
      let (rc, t₁, r, t₂, q, c) =
        delta_update-stays client_ops client_ops-IsKey t es client dir_keepalive_interval s
          (sockaddr_equals_refl client net) room old (omega (arith, n)) in
      (t₁, rw (add_client, e, r) refl, t₂, q, c)
