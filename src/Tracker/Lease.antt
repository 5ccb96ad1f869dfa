-- ===== src/Tracker/Lease.antt =====
-- Each peer of tracker/service.c by itself: how many turns of the clock its own datagrams leave to it,
-- and that the table of clients holds it as long as there are any.
use psnet.Prelude.{
  ℕ, ◌-◌, ◌≡◌, refl, ◌∙◌, ap, true, Option, some, List, [], ◌∷◌, if◌then◌else◌, ltb,
}
use psnet.Libc.{Bytes}
use psnet.Ipv6.{SockAddr}
use psnet.Ipv6.Equality.{sockaddr_equals-eq}
use psnet.DeltaList.{DeltaList}
use psnet.DeltaList.Operations.{delta_contains}
use psnet.DeltaList.Timed.{member-has, elapse}
use psnet.DeltaList.Refine.{delta_contains-member}
use psnet.DeltaList.Lease.{
  held, Unique, Unique-elapse, Unique-without, Unique-renew, has-held, held-without, held-renew,
  held-elapse,
}
use psnet.Client.{Host, client_ops, client_table, delta_equals}
use psnet.Client.Key.{client_ops-IsKey}
use psnet.Jsmn.{JsmnTok}
use psnet.Tracker.Datagram.{Request, ignored, announces, withdraws, request}
use psnet.Tracker.Table.{Peers, fulfil}
use psnet.Tracker.Trace.{Event, datagram, clock_turn, run, follow, Proceeds, run-follow}

-- What a request leaves to the peer `c` that has `n` turns.
abbrev pub leased : (c : SockAddr) (n : ℕ) → Request → ℕ
leased c n ignored = n
leased c n (announces d) = if delta_equals d c then client_table.interval else n
leased c n (withdraws d) = if delta_equals d c then 0 else n

-- The turns that are left to `c` after some events, of the `n` that it has before them.
abbrev pub lease : Host → (c : SockAddr) (n : ℕ) → List Event → ℕ
lease host c n [] = n
lease host c n (datagram addr msg document ∷ events) =
    lease host c (leased c n (request host addr msg document)) events
lease host c n (clock_turn ∷ events) = lease host c (n - 1) events

same_peer : (a b : SockAddr) → client_ops.equals a b ≡ true → a ≡ b
unfolding delta_equals
same_peer a b y = sockaddr_equals-eq a b y

Unique-fulfil : (ps : Peers) (q : Request) → Unique client_ops ps → Unique client_ops (fulfil ps q)
Unique-fulfil ps ignored u = u
Unique-fulfil ps (announces d) u = Unique-renew client_ops same_peer d client_table.interval ps u
Unique-fulfil ps (withdraws d) u = Unique-without client_ops d ps u

held-fulfil :
    (c : SockAddr) (ps : Peers) (q : Request)
    → Unique client_ops ps
    → held client_ops c (fulfil ps q) ≡ leased c (held client_ops c ps) q
held-fulfil c ps ignored u = refl
held-fulfil c ps (announces d) u = held-renew client_ops same_peer c d client_table.interval ps u
held-fulfil c ps (withdraws d) u = held-without client_ops same_peer c d ps u

held-follow :
    (host : Host) (c : SockAddr) (events : List Event) (ps : Peers)
    → Unique client_ops ps
    → held client_ops c (follow host ps events) ≡ lease host c (held client_ops c ps) events
held-follow host c [] ps u = refl
held-follow host c (datagram addr msg document ∷ events) ps u =
    let q = request host addr msg document in
    held-follow host c events (fulfil ps q) (Unique-fulfil ps q u)
    ∙ ap (λ n. lease host c n events) (held-fulfil c ps q u)
held-follow host c (clock_turn ∷ events) ps u =
    held-follow host c events (elapse ps) (Unique-elapse client_ops ps u)
    ∙ ap (λ n. lease host c n events) (held-elapse client_ops same_peer c ps u)

module _ (host : Host) (jsmn_parse : Bytes → ℕ → Option (List JsmnTok × ℕ)) where
  -- After any sequence of datagrams and turns of the clock, the tracker's table contains a peer just
  -- if its own datagrams leave it a turn: its latest announcement gives it ten, a withdrawal takes
  -- them all, and each turn of the clock since then takes one. What the other peers do does not
  -- matter. The events proceed as they do for `run-follow`.
  pub run-lease :
      (events : List Event) (c : SockAddr)
      → Proceeds host jsmn_parse [] events
      → (t : DeltaList SockAddr) × (run host jsmn_parse client_table events ≡ some t)
        × (delta_contains client_ops t c ≡ some (ltb 0 (lease host c 0 events)))
  run-lease events c p =
      let (t, done, h) = run-follow host jsmn_parse events p in
      let es = h.entries in
      (
        t,
        done,
        delta_contains-member client_ops client_ops-IsKey t es c h.settled.table
            ∙ ap some (
                member-has client_ops c es
                ∙ has-held client_ops c es h.settled.live
                ∙ ap (λ ps. ltb 0 (held client_ops c ps)) h.view
                ∙ ap (ltb 0) (held-follow host c events [] tt)),
      )
