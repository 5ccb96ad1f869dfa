-- ===== src/RouterService/Trace.antt =====
-- A router over any sequence of datagrams (`handle_message` of router/service.c), turns of the clocks of
-- its two tables, and updates of its routers (`set_routers` of router/router.c).
use psnet.Prelude.{ℕ, ◌≡◌, refl, ◌∙◌, Option, some, List, [], ◌∷◌, ◌>>=◌}
use psnet.Libc.{Bytes}
use psnet.Ipv6.{SockAddr}
use psnet.DeltaList.{delta_tick}
use psnet.DeltaList.Timed.{elapse}
use psnet.DeltaList.Listing.{delta_tick-listed}
use psnet.Client.{Host, client_ops, client_table}
use psnet.Client.Key.{client_ops-IsKey}
use psnet.MsgCache.{cache_ops, msg_cache}
use psnet.MsgCache.Seen.{cache_ops-IsKey}
use psnet.Router.{set_routers}
use psnet.Router.Flood.{set_routers-new}
use psnet.Jsmn.{JsmnTok}
use psnet.Tracker.Datagram.{Document, parsed}
use psnet.Broadcast.{Node}
use psnet.RouterService.{handle_message}
use psnet.RouterService.Datagram.{request, handle_message-request}
use psnet.RouterService.Overlay.{Overlay, fulfil, Suits, Shows, carry-Shows}

-- A datagram of `len` bytes, with the document that the parser is to make of it; a turn of the clock
-- of the clients or of the cache; or new routers.
pub data Event : Type 0 where
  datagram : (addr : SockAddr) (msg : Bytes) (len : ℕ) (document : Document) → Event
  clients_turn : Event
  cache_turn : Event
  new_routers : List SockAddr → Event

module _ (host : Host) where
  -- What an event makes of what is promised.
  abbrev pub happen : Overlay → Event → Overlay
  happen o (datagram addr msg len document) = fulfil o addr (request host addr msg len document)
  happen o clients_turn = record o { peers = elapse o.peers }
  happen o cache_turn = record o { seen = elapse o.seen }
  happen o (new_routers rs) = record o { routers = rs }

  abbrev pub follow : Overlay → List Event → Overlay
  follow o [] = o
  follow o (e ∷ events) = follow (happen o e) events

  module _ (jsmn_parse : Bytes → ℕ → Option (List JsmnTok × ℕ)) where
    unfoldable pub step : Node → Event → Option Node
    step s (datagram addr msg len document) = handle_message host jsmn_parse s addr msg len
    step s clients_turn = delta_tick client_ops s.clients >>= λ t. some (record s { clients = t })
    step s cache_turn = delta_tick cache_ops s.cache >>= λ t. some (record s { cache = t })
    step s (new_routers rs) = some (record s { routers = set_routers s.routers rs })

    -- The events, one after the other.
    unfoldable pub run : Node → List Event → Option Node
    unfolding step
    run s [] = some s
    run s (e ∷ events) = step s e >>= λ s'. run s' events

    -- The parser makes its document of a message, and the request suits what is promised.
    abbrev pub Allowed : Overlay → Event → Type 0
    Allowed o (datagram addr msg len document) =
        (jsmn_parse msg 256 ≡ parsed document) × Suits o (request host addr msg len document)
    Allowed o _ = Unit

    abbrev pub Proceeds : Overlay → List Event → Type 0
    Proceeds o [] = Unit
    Proceeds o (e ∷ events) = Allowed o e × Proceeds (happen o e) events

    pub step-Shows :
        (s : Node) (o : Overlay) (e : Event)
        → Shows s o
        → Allowed o e
        → (s' : Node) × (step s e ≡ some s') × Shows s' (happen o e)
    unfolding step
    step-Shows s o (datagram addr msg len document) h (read, suits) =
        let q = request host addr msg len document in
        let (s', done, h') = carry-Shows s o h addr q suits in
        (s', handle_message-request host jsmn_parse s addr msg len document read ∙ done, h')
    step-Shows s o clients_turn h a =
        let (t, done, l) =
          delta_tick-listed client_ops client_table.interval s.clients o.peers h.clients
            client_ops-IsKey in
        (
          record s { clients = t },
          rw done refl,
          record { routers = h.routers; clients = l; cache = h.cache; sent = h.sent },
        )
    step-Shows s o cache_turn h a =
        let (t, done, l) =
          delta_tick-listed cache_ops msg_cache.interval s.cache o.seen h.cache cache_ops-IsKey in
        (
          record s { cache = t },
          rw done refl,
          record { routers = h.routers; clients = h.clients; cache = l; sent = h.sent },
        )
    step-Shows s o (new_routers rs) h a = (
      record s { routers = set_routers s.routers rs },
      refl,
      record {
        routers = set_routers-new s.routers rs;
        clients = h.clients;
        cache = h.cache;
        sent = h.sent;
      },
    )

    pub run-Shows :
        (events : List Event) (s : Node) (o : Overlay)
        → Shows s o
        → Proceeds o events
        → (s' : Node) × (run s events ≡ some s') × Shows s' (follow o events)
    unfolding run
    run-Shows [] s o h p = (s, refl, h)
    run-Shows (e ∷ events) s o h (a, p) =
        let (s₁, done, h₁) = step-Shows s o e h a in
        let (s', rest, h') = run-Shows events s₁ (happen o e) h₁ p in (s', rw done rest, h')
