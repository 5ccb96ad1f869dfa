-- ===== src/RouterService/Lease.antt =====
-- Each identifier of a broadcast by itself: how many turns of the clock a router of router/service.c still
-- remembers it, and that just then a broadcast with it is not passed on.
use psnet.Prelude.{ℕ, ◌-◌, List, [], ◌∷◌, if◌then◌else◌}
use psnet.Libc.{Bytes}
use psnet.DeltaList.Lease.{held, Unique}
use psnet.Client.{Host}
use psnet.MsgCache.{cache_ops, msg_cache, delta_equals}
use psnet.RouterService.Datagram.{Request, request, ignored, announces, spreads}
use psnet.RouterService.Overlay.{Overlay}
use psnet.RouterService.Trace.{Event, datagram, clients_turn, cache_turn, new_routers}

-- What a request leaves to the identifier that has `n` turns.
abbrev pub leased : (id : Bytes) (n : ℕ) → Request → ℕ
leased id n ignored = n
leased id n (announces c) = n
leased id n (spreads e payload) = if delta_equals e id then msg_cache.interval else n

-- The turns that are left to the identifier after some events, of the `n` that it has before them.
abbrev pub lease : Host → (id : Bytes) (n : ℕ) → List Event → ℕ
lease host id n [] = n
lease host id n (datagram addr msg len document ∷ events) =
    lease host id (leased id n (request host addr msg len document)) events
lease host id n (clients_turn ∷ events) = lease host id n events
lease host id n (cache_turn ∷ events) = lease host id (n - 1) events
lease host id n (new_routers rs ∷ events) = lease host id n events

module _ (id : Bytes) where
  abbrev left : Overlay → ℕ
  left o = held cache_ops id o.seen

  abbrev Distinct : Overlay → Type 0
  Distinct o = Unique cache_ops o.seen
