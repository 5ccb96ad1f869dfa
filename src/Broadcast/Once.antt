-- ===== src/Broadcast/Once.antt =====
-- When a router passes a broadcast on.
use psnet.Prelude.{
  ℕ, suc, ◌+◌, ◌-◌, ◌^◌, ◌≤◌, ◌<◌, ◌≡◌, refl, inl, inr, Bool, true, false, some, List, ◌++◌, arith,
  Bool-cases, ltb, leb, take, length,
}
use psnet.Libc.{Bytes, char_at}
use psnet.Ipv6.{SockAddr, inet}
use psnet.DeltaList.Queue.{Entry}
use psnet.DeltaList.Append.{IsTail}
use psnet.DeltaList.Delete.{Represents}
use psnet.DeltaList.Spec.{member}
use psnet.Client.{client_ops, Datagram}
use psnet.Client.Wire.{values}
use psnet.MsgCache.{cache_ops, cache_msg}
use psnet.MsgCache.Seen.{cache_msg-member}
use psnet.Router.Flood.{flood_message-reached, reached, datagrams}
use psnet.Jsmn.{JsmnTok}
use psnet.Broadcast.{max_hops, Node, increment, jsmn_tokdup, broadcast_from}

module _ (s : Node) (cs : List (Entry SockAddr)) (ms : List (Entry Bytes)) (a p : ℕ) (msg : Bytes)
    (len : ℕ) (hops id : JsmnTok) where
  -- What is sent: the message with one hop more, to those that a flood reaches, unless its
  -- identifier has been seen.
  abbrev pub passed_on : Bool → List Datagram
  passed_on true = s.sent
  passed_on false =
      (s.sent ++ datagrams (take len (increment hops.start msg)) (reached a s.routers))
      ++ datagrams (take len (increment hops.start msg)) (values cs)

  abbrev pub seen : Bool
  seen = member cache_ops (jsmn_tokdup (increment hops.start msg) id) ms

  abbrev pub Broadcasts : Bool → Type 0
  Broadcasts known =
      (s' : Node) × (broadcast_from s (inet a p) msg len hops id ≡ some s')
      × (s'.sent ≡ passed_on known)

  -- A broadcast from an IPv4 address that has not reached the hop limit is flooded, with one hop
  -- more, if its identifier is not in the cache, and is not sent to anyone if it is; there is no
  -- fault, with the clients and the cache in good order and room in the cache.
  pub broadcast_from-once :
      Represents client_ops s.clients cs
      → Represents cache_ops s.cache ms
      → IsTail s.cache ms
      → suc (length ms) < 2 ^ 32
      → b'0' ≤ char_at hops.start msg
      → char_at hops.start msg < b'0' + max_hops - 1
      → Broadcasts seen
  unfolding broadcast_from
  broadcast_from-once x y tail room low high =
      let (cache', e) =
        cache_msg-member s.cache ms (jsmn_tokdup (increment hops.start msg) id) y tail room in
      let l : ltb (char_at hops.start msg) b'0' ≡ false = ground arith in
      let h : leb (b'0' + max_hops - 1) (char_at hops.start msg) ≡ false = ground arith in
      elim (Bool-cases seen) [
        | inl known ↦
            let old : cache_msg s.cache (jsmn_tokdup (increment hops.start msg) id)
                ≡ some (1, cache') =
              rw known at e in
            rw known (record s { cache = cache' }, rw (l, h, old) refl, refl)
        | inr new ↦
            let first : cache_msg s.cache (jsmn_tokdup (increment hops.start msg) id)
                ≡ some (0, cache') =
              rw new at e in
            let all =
              flood_message-reached s.routers s.clients cs a p (take len (increment hops.start msg))
                s.sent x in
            rw new (
              record s { cache = cache'; sent = passed_on false },
              rw (l, h, first, all) refl,
              refl,
            )
      ]
