-- ===== src/RouterService/Once.antt =====
-- A message goes through a router once while its identifier is remembered: two broadcasts with one
-- identifier among any other events of router/service.c.
use psnet.Prelude.{
  refl, Bool, false, ℕ, suc, ◌+◌, ◌<◌, ◌≡◌, ◌∙◌, sym, ap, subst, arith, true, ◌^◌, length,
  if◌then◌else◌, Option, some, List, [], ◌∷◌,
}
use psnet.Libc.{Bytes}
use psnet.Ipv6.{SockAddr}
use psnet.Ipv6.Equality.{bytes_eq_refl}
use psnet.DeltaList.Timed.{has}
use psnet.DeltaList.Stays.{Stays, elapse-Stays, renewed-Stays, renew-Stays, Stays-has}
use psnet.Client.{Host}
use psnet.MsgCache.{cache_ops, msg_cache, delta_equals}
use psnet.Jsmn.{JsmnTok}
use psnet.Tracker.Datagram.{Document, parsed}
use psnet.Broadcast.{Node}
use psnet.RouterService.{handle_message}
use psnet.RouterService.Datagram.{
  Request, request, ignored, announces, spreads, at_limit, hopped, identifier, broadcast,
  handle_message-request,
}
use psnet.RouterService.Passing.{bytes_eq_same, handle_message-has}
use psnet.RouterService.Overlay.{Overlay, fulfil, flooded, Shows}
use psnet.RouterService.Trace.{
  Event, datagram, clients_turn, cache_turn, new_routers, happen, follow, run, Proceeds, run-Shows,
}

-- How often the clock of the cache turns.
abbrev pub cache_turns : List Event → ℕ
cache_turns [] = 0
cache_turns (cache_turn ∷ events) = suc (cache_turns events)
cache_turns (_ ∷ events) = cache_turns events

bytes_eq_self : (a : Bytes) → delta_equals a a ≡ true
unfolding delta_equals
bytes_eq_self a = bytes_eq_refl a

-- An identifier is remembered whatever is asked for.
fulfil-Stays :
    (q : Request) (id : Bytes) (k : ℕ) (o : Overlay) (addr : SockAddr)
    → k < msg_cache.interval
    → Stays id k o.seen
    → Stays id k (fulfil o addr q).seen
fulfil-Stays ignored id k o addr h r = r
fulfil-Stays (announces c) id k o addr h r = r
fulfil-Stays (spreads e payload) id k o addr h r =
    renew-Stays cache_ops bytes_eq_same id e k msg_cache.interval o.seen r h

module _ (host : Host) where
  follow-Stays :
      (events : List Event) (id : Bytes) (k : ℕ) (o : Overlay)
      → k + cache_turns events < msg_cache.interval
      → Stays id (k + cache_turns events) o.seen
      → Stays id k (follow host o events).seen
  follow-Stays [] id k o h r = let e : k + 0 ≡ k = omega arith in subst (λ j. Stays id j o.seen) e r
  follow-Stays (datagram addr msg len document ∷ events) id k o h r =
      follow-Stays events id k _ h
        (fulfil-Stays (request host addr msg len document) id (k + cache_turns events) o addr h r)
  follow-Stays (clients_turn ∷ events) id k o h r = follow-Stays events id k _ h r
  follow-Stays (cache_turn ∷ events) id k o h r =
      let e : k + suc (cache_turns events) ≡ suc (k + cache_turns events) = omega arith in
      follow-Stays events id k _ (omega arith)
        (elapse-Stays id (k + cache_turns events) o.seen (subst (λ j. Stays id j o.seen) e r))
  follow-Stays (new_routers rs ∷ events) id k o h r = follow-Stays events id k _ h r

  module _ (jsmn_parse : Bytes → ℕ → Option (List JsmnTok × ℕ)) where
    -- Nothing is sent for an identifier that is remembered, be it the latest or not.
    handle_message-known :
        (s : Node) (o : Overlay) (addr : SockAddr) (msg : Bytes) (len : ℕ) (document : Document)
        (id payload : Bytes)
        → Shows s o
        → jsmn_parse msg 256 ≡ parsed document
        → request host addr msg len document ≡ spreads id payload
        → has cache_ops id o.seen ≡ true
        → suc (length o.seen) < 2 ^ 32
        → (s' : Node) × (handle_message host jsmn_parse s addr msg len ≡ some s')
          × (s'.sent ≡ s.sent)
    handle_message-known s o addr msg len document id payload h read asked known room =
        let (s', done, same) =
          handle_message-has host jsmn_parse s o addr msg len document id payload h read asked
            room in
        (s', done, same ∙ ap (λ b. if b then o.sent else flooded o addr payload) known ∙ sym h.sent)

    -- The same if the hop limit may be reached.
    unsent_if :
        (limit : Bool) (s : Node) (o : Overlay) (addr : SockAddr) (msg : Bytes) (len : ℕ)
        (document : Document) (id payload : Bytes)
        → Shows s o
        → jsmn_parse msg 256 ≡ parsed document
        → request host addr msg len document ≡ (if limit then ignored else spreads id payload)
        → has cache_ops id o.seen ≡ true
        → suc (length o.seen) < 2 ^ 32
        → (s' : Node) × (handle_message host jsmn_parse s addr msg len ≡ some s')
          × (s'.sent ≡ s.sent)
    unsent_if false s o addr msg len document id payload h read asked known room =
        handle_message-known s o addr msg len document id payload h read asked known room
    unsent_if true s o addr msg len document id payload h read asked known room = (
      s,
      handle_message-request host jsmn_parse s addr msg len document read ∙ rw asked refl,
      refl,
    )

    -- After a broadcast whose hops are below the limit, and any other events in which the clock of the
    -- cache turns less than ten times, a router sends nothing for a broadcast with the same
    -- identifier, whoever it is from and whatever else is in it: neither to routers nor to peers. The
    -- state of the router stands for what is promised, the parser rejects each message or makes a
    -- document of it, the requests up to then suit what is promised, and the cache has room for one
    -- entry more.
    pub handle_message_once :
        (s : Node) (o : Overlay) (addr addr' : SockAddr) (msg msg' : Bytes) (len len' : ℕ)
        (document document' : Document) (events : List Event) (hops id hops' id' : JsmnTok)
        → Shows s o
        → request host addr msg len document ≡ broadcast msg len hops id
        → at_limit msg hops ≡ false
        → jsmn_parse msg' 256 ≡ parsed document'
        → request host addr' msg' len' document' ≡ broadcast msg' len' hops' id'
        → identifier msg' hops' id' ≡ identifier msg hops id
        → cache_turns events < msg_cache.interval
        → Proceeds host jsmn_parse o (datagram addr msg len document ∷ events)
        → suc (length (follow host o (datagram addr msg len document ∷ events)).seen) < 2 ^ 32
        → (s₁ : Node) × (run host jsmn_parse s (datagram addr msg len document ∷ events) ≡ some s₁)
          × (s₂ : Node) × (handle_message host jsmn_parse s₁ addr' msg' len' ≡ some s₂)
          × (s₂.sent ≡ s₁.sent)
    handle_message_once s o addr addr' msg msg' len len' document document' events hops id hops' id'
          h first below read second same_id few p room =
        let begun = datagram addr msg len document ∷ events in
        let (s₁, done, h₁) = run-Shows host jsmn_parse begun s o h p in
        let o₁ = follow host o begun in
        let name = identifier msg hops id in
        let spread_first : request host addr msg len document ≡ spreads name (hopped msg len hops) =
          first ∙ ap (λ b. if b then ignored else spreads name (hopped msg len hops)) below in
        let kept : Stays name (0 + cache_turns events)
            (happen host o (datagram addr msg len document)).seen =
          subst (λ q. Stays name (0 + cache_turns events) (fulfil o addr q).seen) (sym spread_first)
            (renewed-Stays cache_ops name (0 + cache_turns events) msg_cache.interval o.seen
              (omega arith)) in
        let known : has cache_ops name o₁.seen ≡ true =
          Stays-has cache_ops name 0 o₁.seen (bytes_eq_self name)
            (follow-Stays events name 0 _ (omega arith) kept) in
        let (s₂, again, same) =
          unsent_if (at_limit msg' hops') s₁ o₁ addr' msg' len' document'
            (identifier msg' hops' id') (hopped msg' len' hops') h₁ read second
            (ap (λ n. has cache_ops n o₁.seen) same_id ∙ known) room in
        (s₁, done, s₂, again, same)
