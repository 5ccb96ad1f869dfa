-- ===== src/Router/Flood.antt =====
-- Whom `flood_message` of router/router.c sends a message.
use psnet.Prelude.{
  ℕ, ◌≡◌, refl, ◌∙◌, sym, ap, inl, inr, true, false, some, List, [], ◌∷◌, ◌++◌, map, Bool-cases,
  append_assoc, append-nil, ◌==◌, if◌then◌else◌,
}
use psnet.Libc.{Bytes}
use psnet.Ipv6.{SockAddr, inet, inet6, other, ip_addr_equals}
use psnet.DeltaList.{DeltaList}
use psnet.DeltaList.Queue.{Entry}
use psnet.DeltaList.Delete.{Represents}
use psnet.Client.{Datagram, client_ops}
use psnet.Client.Fanout.{flood_to_clients-all}
use psnet.Client.Wire.{values}
use psnet.Router.{set_routers, flood_routers, flood_message}

-- The routers that a message from an IPv4 address reaches: those at the sender's own address, and
-- those of another family.
abbrev pub reached : (sender : ℕ) → List SockAddr → List SockAddr
reached a [] = []
reached a (inet b q ∷ rs) = if b == a then inet b q ∷ reached a rs else reached a rs
reached a (inet6 b q ∷ rs) = inet6 b q ∷ reached a rs
reached a (other f b q ∷ rs) = other f b q ∷ reached a rs

abbrev pub datagrams : Bytes → List SockAddr → List Datagram
datagrams payload rs = map (λ c. record { to = c; payload = payload }) rs

flood_routers-send :
    (r : SockAddr) (rs : List SockAddr) (sender : SockAddr) (payload : Bytes) (sent : List Datagram)
    → ip_addr_equals r sender ≡ false
    → flood_routers (r ∷ rs) sender payload sent
      ≡ flood_routers rs sender payload (sent ++ record { to = r; payload = payload } ∷ [])
unfolding flood_routers
flood_routers-send r rs sender payload sent h = rw h refl

flood_routers-skip :
    (r : SockAddr) (rs : List SockAddr) (sender : SockAddr) (payload : Bytes) (sent : List Datagram)
    → ip_addr_equals r sender ≡ true
    → flood_routers (r ∷ rs) sender payload sent ≡ flood_routers rs sender payload sent
unfolding flood_routers
flood_routers-skip r rs sender payload sent h = rw h refl

flood_routers-reached :
    (rs : List SockAddr) (a p : ℕ) (payload : Bytes) (sent : List Datagram)
    → flood_routers rs (inet a p) payload sent ≡ sent ++ datagrams payload (reached a rs)
unfolding flood_routers ip_addr_equals
flood_routers-reached [] a p payload sent = sym (append-nil sent)
flood_routers-reached (inet b q ∷ rs) a p payload sent = elim (Bool-cases (b == a)) [
  | inl same ↦ rw same (
      flood_routers-reached rs a p payload
        (sent ++ record { to = inet b q; payload = payload } ∷ [])
      ∙ append_assoc sent _ _)
  | inr differs ↦ rw differs (flood_routers-reached rs a p payload sent)
]
flood_routers-reached (inet6 b q ∷ rs) a p payload sent =
    flood_routers-reached rs a p payload (sent ++ record { to = inet6 b q; payload = payload } ∷ [])
    ∙ append_assoc sent _ _
flood_routers-reached (other f b q ∷ rs) a p payload sent =
    flood_routers-reached rs a p payload
      (sent ++ record { to = other f b q; payload = payload } ∷ [])
    ∙ append_assoc sent _ _

-- `flood_message` of a message from an IPv4 address, with the clients in good order, sends it to the
-- routers at that very address and to those of another family, not to the IPv4 routers elsewhere,
-- and then to every client.
pub flood_message-reached :
    (rs : List SockAddr) (t : DeltaList SockAddr) (es : List (Entry SockAddr)) (a p : ℕ)
    (payload : Bytes) (sent : List Datagram)
    → Represents client_ops t es
    → flood_message rs t (inet a p) payload sent
      ≡ some ((sent ++ datagrams payload (reached a rs)) ++ datagrams payload (values es))
unfolding flood_message
flood_message-reached rs t es a p payload sent x =
    flood_to_clients-all t es payload (flood_routers rs (inet a p) payload sent) x
    ∙ ap (λ l. some (l ++ datagrams payload (values es)))
        (flood_routers-reached rs a p payload sent)

pub set_routers-new : (old new : List SockAddr) → set_routers old new ≡ new
unfolding set_routers
set_routers-new old [] = refl
set_routers-new old (r ∷ new) = refl
