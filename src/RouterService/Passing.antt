-- ===== src/RouterService/Passing.antt =====
-- Whether a router of router/service.c passes a broadcast on, by what its cache of identifiers stands for.
use psnet.Prelude.{
  ℕ, suc, ◌<◌, ◌^◌, ◌≡◌, ◌∙◌, ap, arith, true, Option, some, List, length, if◌then◌else◌,
}
use psnet.Libc.{Bytes}
use psnet.Ipv6.{SockAddr}
use psnet.DeltaList.Answer.{delta_update-member}
use psnet.DeltaList.Timed.{has, item, member-has}
use psnet.DeltaList.Spec.{member}
use psnet.DeltaList.Listing.{length-map}
use psnet.Client.{Host}
use psnet.MsgCache.{cache_ops, cache_msg, delta_equals}
use psnet.MsgCache.Seen.{cache_ops-IsKey}
use psnet.Jsmn.{JsmnTok}
use psnet.Tracker.Datagram.{Document, parsed}
use psnet.Broadcast.{Node}
use psnet.RouterService.{handle_message}
use psnet.RouterService.Datagram.{request, spreads, handle_message-request}
use psnet.RouterService.Overlay.{Overlay, Shows, flooded, spreads-sent}
use psnet.Ipv6.Equality.{bytes_eq-eq}

pub bytes_eq_same : (a b : Bytes) → delta_equals a b ≡ true → a ≡ b
unfolding delta_equals
bytes_eq_same a b h = bytes_eq-eq a b h

module _ (host : Host) (jsmn_parse : Bytes → ℕ → Option (List JsmnTok × ℕ)) where
  -- A broadcast is passed on if its identifier is not remembered, be it the latest or not.
  pub handle_message-has :
      (s : Node) (o : Overlay) (addr : SockAddr) (msg : Bytes) (len : ℕ) (document : Document)
      (id payload : Bytes)
      → Shows s o
      → jsmn_parse msg 256 ≡ parsed document
      → request host addr msg len document ≡ spreads id payload
      → suc (length o.seen) < 2 ^ 32
      → (s' : Node) × (handle_message host jsmn_parse s addr msg len ≡ some s')
        × (s'.sent ≡ (if has cache_ops id o.seen then o.sent else flooded o addr payload))
  unfolding cache_msg
  handle_message-has s o addr msg len document id payload h read asked room =
      let l = h.cache in
      let es = l.entries in
      let there : member cache_ops id es ≡ has cache_ops id o.seen =
        member-has cache_ops id es ∙ ap (has cache_ops id) l.view in
      let fits : suc (length es) < 2 ^ 32 =
        omega (arith, room, length-map item es, ap length l.view) in
      let (t, run) =
        delta_update-member cache_ops id cache_ops-IsKey s.cache es l.settled.table l.settled.tail
          fits in
      let (sent, done, same) =
        spreads-sent s o h addr id payload t (has cache_ops id o.seen)
          (run ∙ ap (λ b. some ((if b then 1 else 0), t)) there) in
      (
        record s { cache = t; sent = sent },
        handle_message-request host jsmn_parse s addr msg len document read ∙ rw asked done,
        same,
      )
