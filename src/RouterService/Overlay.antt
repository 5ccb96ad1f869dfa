-- ===== src/RouterService/Overlay.antt =====
-- What a router promises: the routers and the peers that it knows, the identifiers of the messages that
-- it has seen lately, and what it has sent. The state of router/service.c stands for these.
use psnet.Prelude.{
  ℕ, suc, ◌<◌, ◌^◌, ◌≡◌, refl, ◌∙◌, sym, ap, ap₂, arith, Bool, true, false, some, List, [], ◌∷◌,
  ◌++◌, map, append_assoc, append-nil, Bool-cases, inl, inr, length, if◌then◌else◌,
}
use psnet.Libc.{Bytes}
use psnet.Ipv6.{SockAddr, ip_addr_equals}
use psnet.Ipv6.Equality.{
  IsInternet, sockaddr_equals-eq, sockaddr_equals_refl, bytes_eq-eq, bytes_eq_refl,
}
use psnet.DeltaList.{DeltaList}
use psnet.DeltaList.Queue.{Entry}
use psnet.DeltaList.Timed.{item, renew, has, is_latest}
use psnet.DeltaList.Listing.{IsListing, new-IsListing, delta_update-listed}
use psnet.Client.{client_ops, client_table, delta_equals, Datagram}
use psnet.Client.Key.{client_ops-IsKey}
use psnet.Client.Fanout.{flood_to_clients-all}
use psnet.Client.Wire.{values}
use psnet.MsgCache.{cache_ops, msg_cache, cache_msg}
use psnet.MsgCache.Seen.{cache_ops-IsKey}
use psnet.Router.{flood_routers, flood_message}
use psnet.Router.Flood.{datagrams}
use psnet.Tracker.Table.{Peers, ListsPeers, client_table-ListsPeers}
use psnet.Broadcast.{Node}
use psnet.RouterService.Datagram.{Request, ignored, announces, spreads, carry}

pub record Overlay : Type 0 where
  pub routers : List SockAddr
  pub peers : Peers
  pub seen : List (Bytes × ℕ)
  pub sent : List Datagram

-- The routers that a message from `addr` goes to: those that `ip_addr_equals` keeps apart from it.
abbrev pub targets : (addr : SockAddr) → List SockAddr → List SockAddr
targets addr [] = []
targets addr (r ∷ rs) = if ip_addr_equals r addr then targets addr rs else r ∷ targets addr rs

abbrev pub addresses : Peers → List SockAddr
addresses ps = map (λ p. p.0) ps

-- What has been sent when a message has gone to routers and peers too.
abbrev pub flooded : Overlay → SockAddr → (payload : Bytes) → List Datagram
flooded o addr payload =
    (o.sent ++ datagrams payload (targets addr o.routers)) ++ datagrams payload (addresses o.peers)

-- A message that has not been seen lately goes to routers and peers, and is remembered.
abbrev pub spread : Overlay → SockAddr → (id payload : Bytes) → Overlay
spread o addr id payload = record o {
  seen = renew cache_ops id msg_cache.interval o.seen;
  sent = if has cache_ops id o.seen then o.sent else flooded o addr payload;
}

abbrev pub fulfil : Overlay → SockAddr → Request → Overlay
fulfil o addr ignored = o
fulfil o addr (announces c) = record o { peers = renew client_ops c client_table.interval o.peers }
fulfil o addr (spreads id payload) = spread o addr id payload

-- A request that the two tables carry out as promised.
abbrev pub Suits : Overlay → Request → Type 0
Suits o ignored = Unit
Suits o (announces c) =
    IsInternet c × (suc (length o.peers) < 2 ^ 32) × (is_latest client_ops c o.peers ≡ false)
Suits o (spreads id payload) =
    (suc (length o.seen) < 2 ^ 32) × (is_latest cache_ops id o.seen ≡ false)

-- The state of a router stands for what is promised.
pub record Shows (s : Node) (o : Overlay) : Type 0 where
  pub routers : s.routers ≡ o.routers
  pub clients : ListsPeers s.clients o.peers
  pub cache : IsListing cache_ops msg_cache.interval s.cache o.seen
  pub sent : s.sent ≡ o.sent

abbrev pub start : Node
start = record { routers = []; clients = client_table; cache = msg_cache; sent = [] }

abbrev pub nothing_known : Overlay
nothing_known = record { routers = []; peers = []; seen = []; sent = [] }

pub start-Shows : Shows start nothing_known
start-Shows = record {
  routers = refl;
  clients = client_table-ListsPeers;
  cache = new-IsListing cache_ops 1 10 (omega arith) (omega arith);
  sent = refl;
}

flood_routers-targets :
    (rs : List SockAddr) (addr : SockAddr) (payload : Bytes) (sent : List Datagram)
    → flood_routers rs addr payload sent ≡ sent ++ datagrams payload (targets addr rs)
unfolding flood_routers
flood_routers-targets [] addr payload sent = sym (append-nil sent)
flood_routers-targets (r ∷ rs) addr payload sent = elim (Bool-cases (ip_addr_equals r addr)) [
  | inl near ↦ rw near (flood_routers-targets rs addr payload sent)
  | inr far ↦ rw far (
      flood_routers-targets rs addr payload (sent ++ record { to = r; payload = payload } ∷ [])
      ∙ append_assoc sent _ _)
]

values-addresses : (es : List (Entry SockAddr)) → values es ≡ addresses (map item es)
values-addresses [] = refl
values-addresses (e ∷ es) = ap (λ cs. e.value ∷ cs) (values-addresses es)

module _ (s : Node) (o : Overlay) (h : Shows s o) (addr : SockAddr) where
  flood_message-targets :
      (payload : Bytes)
      → flood_message s.routers s.clients addr payload s.sent ≡ some (flooded o addr payload)
  unfolding flood_message
  flood_message-targets payload =
      let es = h.clients.entries in
      flood_to_clients-all s.clients es payload (flood_routers s.routers addr payload s.sent)
        h.clients.settled.table
      ∙ ap (λ l. some (l ++ datagrams payload (values es)))
          (flood_routers-targets s.routers addr payload s.sent
            ∙ ap₂ (λ l rs. l ++ datagrams payload (targets addr rs)) h.sent h.routers)
      ∙ ap
          (λ cs.
            some ((o.sent ++ datagrams payload (targets addr o.routers)) ++ datagrams payload cs))
          (values-addresses es ∙ ap addresses h.clients.view)

  abbrev Carried : Request → Type 0
  Carried q = (s' : Node) × (carry s addr q ≡ some s') × Shows s' (fulfil o addr q)

  announces-Shows : (c : SockAddr) → Suits o (announces c) → Carried (announces c)
  unfolding delta_equals
  announces-Shows c (inter, room, old) =
      let (t, run, l) =
        delta_update-listed client_ops client_table.interval s.clients o.peers h.clients
          client_ops-IsKey sockaddr_equals-eq c (sockaddr_equals_refl c inter) room old in
      (
        record s { clients = t },
        rw run refl,
        record { routers = h.routers; clients = l; cache = h.cache; sent = h.sent },
      )

  pub spreads-sent :
      (id payload : Bytes) (t : DeltaList Bytes) (known : Bool)
      → cache_msg s.cache id ≡ some ((if known then 1 else 0), t)
      → (sent : List Datagram) × (carry s addr (spreads id payload)
          ≡ some (record s { cache = t; sent = sent }))
        × (sent ≡ (if known then o.sent else flooded o addr payload))
  spreads-sent id payload t true run = (s.sent, rw run refl, h.sent)
  spreads-sent id payload t false run =
      (flooded o addr payload, rw (run, flood_message-targets payload) refl, refl)

  spreads-Shows : (id payload : Bytes) → Suits o (spreads id payload) → Carried (spreads id payload)
  unfolding cache_msg psnet.MsgCache.delta_equals
  spreads-Shows id payload (room, old) =
      let (t, run, l) =
        delta_update-listed cache_ops msg_cache.interval s.cache o.seen h.cache cache_ops-IsKey
          bytes_eq-eq id (bytes_eq_refl id) room old in
      let (sent, done, same) = spreads-sent id payload t (has cache_ops id o.seen) run in
      (
        record s { cache = t; sent = sent },
        done,
        record { routers = h.routers; clients = h.clients; cache = l; sent = same },
      )

  pub carry-Shows : (q : Request) → Suits o q → Carried q
  carry-Shows ignored suits = (s, refl, h)
  carry-Shows (announces c) suits = announces-Shows c suits
  carry-Shows (spreads id payload) suits = spreads-Shows id payload suits
