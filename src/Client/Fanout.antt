-- ===== src/Client/Fanout.antt =====
-- The order in which `flood_to_clients` of common/client.c forwards a message.
use psnet.Prelude.{◌≡◌, ◌∙◌, sym, ap, some, List, [], ◌∷◌, ◌++◌, map, append_assoc, append-nil}
use psnet.Libc.{Bytes}
use psnet.Ipv6.{SockAddr}
use psnet.DeltaList.{DeltaList}
use psnet.DeltaList.Queue.{Entry}
use psnet.DeltaList.Delete.{Represents}
use psnet.DeltaList.Whole.{visit, delta_foreach-visit}
use psnet.Client.{Datagram, client_ops, fwd_to_client, flood_to_clients}
use psnet.Client.Wire.{values}

visit-fwd_to_client :
    (cs : List SockAddr) (payload : Bytes) (sent : List Datagram)
    → visit (fwd_to_client payload) cs sent
      ≡ sent ++ map (λ c. record { to = c; payload = payload }) cs
unfolding fwd_to_client
visit-fwd_to_client [] payload sent = sym (append-nil sent)
visit-fwd_to_client (c ∷ cs) payload sent =
    visit-fwd_to_client cs payload (sent ++ record { to = c; payload = payload } ∷ [])
    ∙ append_assoc sent (record { to = c; payload = payload } ∷ []) _

-- `flood_to_clients` sends the message to each client once, in the order of expiry.
pub flood_to_clients-all :
    (t : DeltaList SockAddr) (es : List (Entry SockAddr)) (payload : Bytes) (sent : List Datagram)
    → Represents client_ops t es
    → flood_to_clients t payload sent
      ≡ some (sent ++ map (λ c. record { to = c; payload = payload }) (values es))
unfolding flood_to_clients
flood_to_clients-all t es payload sent x =
    delta_foreach-visit client_ops t es (fwd_to_client payload) sent x
    ∙ ap some (visit-fwd_to_client (values es) payload sent)
