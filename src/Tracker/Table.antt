-- ===== src/Tracker/Table.antt =====
-- The tracker's table of clients as a list of peers, the longest ago first, each with the turns of the
-- clock that are left to it: what a request makes of it.
use psnet.Prelude.{ℕ, suc, ◌<◌, ◌^◌, ◌≡◌, refl, arith, false, some, List, [], length}
use psnet.Ipv6.{SockAddr}
use psnet.Ipv6.Equality.{IsInternet, sockaddr_equals-eq, sockaddr_equals_refl}
use psnet.DeltaList.{DeltaList}
use psnet.DeltaList.Timed.{without, renew, is_latest}
use psnet.DeltaList.Listing.{IsListing, new-IsListing, delta_update-listed, delta_remove-listed}
use psnet.Client.{client_ops, client_table, delta_equals}
use psnet.Client.Key.{client_ops-IsKey}
use psnet.Tracker.Datagram.{Request, ignored, announces, withdraws, carry}

abbrev pub Peers : Type 0
Peers = List (SockAddr × ℕ)

-- What a request makes of the peers.
abbrev pub fulfil : Peers → Request → Peers
fulfil ps ignored = ps
fulfil ps (announces c) = renew client_ops c client_table.interval ps
fulfil ps (withdraws c) = without client_ops c ps

-- A request that the table carries out as promised: there is room for one peer more, the peer is of
-- an Internet family, and it is not the latest of several.
abbrev pub Suits : Peers → Request → Type 0
Suits ps ignored = Unit
Suits ps (announces c) =
    IsInternet c × (suc (length ps) < 2 ^ 32) × (is_latest client_ops c ps ≡ false)
Suits ps (withdraws c) = is_latest client_ops c ps ≡ false

-- The table stands for the peers.
abbrev pub ListsPeers : DeltaList SockAddr → Peers → Type 0
ListsPeers t ps = IsListing client_ops client_table.interval t ps

pub client_table-ListsPeers : ListsPeers client_table []
client_table-ListsPeers = new-IsListing client_ops 1 10 (omega arith) (omega arith)

pub carry-ListsPeers :
    (t : DeltaList SockAddr) (ps : Peers) (q : Request)
    → ListsPeers t ps
    → Suits ps q
    → (t' : DeltaList SockAddr) × (carry t q ≡ some t') × ListsPeers t' (fulfil ps q)
unfolding delta_equals
carry-ListsPeers t ps ignored h s = (t, refl, h)
carry-ListsPeers t ps (announces c) h (inter, room, old) =
    let (t', run, h') =
      delta_update-listed client_ops client_table.interval t ps h client_ops-IsKey
        sockaddr_equals-eq c (sockaddr_equals_refl c inter) room old in
    (t', rw run refl, h')
carry-ListsPeers t ps (withdraws c) h old =
    let (rc, t', run, h') =
      delta_remove-listed client_ops client_table.interval t ps h client_ops-IsKey c old in
    (t', rw run refl, h')
