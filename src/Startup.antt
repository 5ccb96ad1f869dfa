-- ===== src/Startup.antt =====
-- `main` of tracker/service.c and router/service.c: how the two programs start, and what `delta_init` of
-- common/deltalist.c and `psnet_new` of common/protocol.c do for it.
--
-- What the system answers is data: whether pthread_create makes a thread, the addresses of
-- getaddrinfo, and how the search for a socket goes. The build without DAEMON is meant.
use psnet.Prelude.{ℕ, ◌≡◌, Bool, Option, none, some, List, [], ◌∷◌, ◌++◌, if◌then◌else◌, ◌⊎◌, ℤ}
use psnet.Libc.{Bytes, atoi}
use psnet.Ipv6.{SockAddr}
use psnet.Client.{to_port}
use psnet.Router.Keepalive.{TrackerArg, router_init}
use psnet.Server.Sockets.{Attempt, tcp_server_init}
use psnet.Settings.{Opt, IniEntry}
use psnet.TrackerSettings
use psnet.RouterSettings

-- The threads that a program starts.
pub data Thread : Type 0 where
  clients_clock cache_clock : Thread
  router_update router_keepalive : TrackerArg → Thread
  udp_server : (port : Bytes) (max_threads : ℤ) → Thread

-- `exits` is the end of the program; else `main` has started the threads and is in tcp_server_main.
pub data Started : Type 0 where
  exits : Started
  serves : (threads : List Thread) (sockfd : ℕ) (max_threads : ℤ) → Started

-- The IPv4 addresses that getaddrinfo finds for a name and a port, at least one if it succeeds.
abbrev Resolver : Type 0
Resolver = (host port : Bytes) → Option (SockAddr × List SockAddr)

-- The first of the addresses, if getaddrinfo succeeds.
unfoldable pub psnet_new : Resolver → (host port : Bytes) → Option SockAddr
psnet_new getaddrinfo host port = elim (getaddrinfo host port) [
  | none ↦ none
  | some servinfo ↦ some servinfo.0
]

-- What the system answers to `main`.
pub record System : Type 0 where
  pub created : Thread → Bool
  pub getaddrinfo : Resolver
  pub addresses : (port : Bytes) → Option (List Attempt)
  pub listens : Bool

-- `pthread_create`; if it fails, this is printed and nothing else.
unfoldable pub create : System → Thread → List Thread
create sys thread = if sys.created thread then thread ∷ [] else []

-- `delta_init` with the clock of its table.
unfoldable pub delta_init : System → Thread → List Thread
unfolding create
delta_init sys clock = create sys clock

-- The call of tcp_server_init and what is behind it.
abbrev serve_tcp : System → List Thread → (port : Bytes) (max_threads : ℤ) → Started
serve_tcp sys threads port max_threads = elim (tcp_server_init (sys.addresses port) sys.listens) [
  | none ↦ exits
  | some sockfd ↦ serves threads sockfd max_threads
]

-- `main` of the tracker behind the reading of its settings.
abbrev pub tracker_threads : System → TrackerSettings.Settings → List Thread
tracker_threads sys s = delta_init sys clients_clock ++ create sys (udp_server s.port s.max_threads)

unfoldable pub tracker_main : System → List IniEntry → List Opt → Started
unfolding delta_init create
tracker_main sys entries opts = elim (TrackerSettings.configure entries opts) [
  | none ↦ exits
  | some s ↦ serve_tcp sys (tracker_threads sys s) s.port s.max_threads
]

-- The threads of `router_init`.
abbrev pub init_threads : System → Option TrackerArg → List Thread
init_threads sys none = []
init_threads sys (some arg) = create sys (router_update arg) ++ create sys (router_keepalive arg)

-- `main` of the router behind the reading of its settings. What `router_init` returns is not read.
abbrev pub router_threads : System → RouterSettings.Settings → Option TrackerArg → List Thread
router_threads sys s arg =
    delta_init sys clients_clock
    ++ (delta_init sys cache_clock
        ++ (init_threads sys arg ++ create sys (udp_server s.listen_port s.max_threads)))

unfoldable pub router_main : System → List IniEntry → List Opt → Started
unfolding delta_init create psnet_new
router_main sys entries opts = elim (RouterSettings.configure entries opts) [
  | none ↦ exits
  | some s ↦
      serve_tcp sys
        (router_threads sys s
          (router_init (psnet_new sys.getaddrinfo s.dir_addr s.dir_port) s.listen_port))
        s.listen_port s.max_threads
]

-- The router is not to be known to its tracker: its name does not resolve, or the port is a
-- multiple of 2^16 as an int.
abbrev pub IsUnannounced : System → RouterSettings.Settings → Type 0
IsUnannounced sys s =
    (sys.getaddrinfo s.dir_addr s.dir_port ≡ none) ⊎ (to_port (atoi s.listen_port) ≡ 0)

-- The threads of a list that pthread_create makes, in their order.
abbrev pub made : System → List Thread → List Thread
made sys [] = []
made sys (thread ∷ threads) =
    if sys.created thread then thread ∷ made sys threads else made sys threads
