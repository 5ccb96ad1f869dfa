-- ===== src/Client/Key.antt =====
-- The client table's callbacks of common/client.c: `delta_hash` and `delta_equals`.
use psnet.Prelude.{◌≡◌, sym, ap, subst, true, List, [], ◌∷◌}
use psnet.Ipv6.{SockAddr}
use psnet.Ipv6.Equality.{sockaddr_equals-eq, sockaddr_equals_symm, IsInternet, sockaddr_equals_refl}
use psnet.DeltaList.Queue.{Entry}
use psnet.DeltaList.Hash.{IsKey}
use psnet.DeltaList.Spec.{IsSelfEqual}
use psnet.Client.{delta_hash, delta_equals, client_ops}

-- Clients that are equal are the same, so they have one hash.
pub client_ops-IsKey : IsKey client_ops
unfolding delta_equals
client_ops-IsKey = record {
  equals_symm = λ a b. sockaddr_equals_symm a b;
  equals_trans =
      λ a b c h k. subst (λ z. delta_equals z c ≡ true) (sym (sockaddr_equals-eq a b h)) k;
  hash-equals = λ a b h. ap delta_hash (sockaddr_equals-eq a b h);
}

-- The clients of an Internet family.
abbrev pub IsInternets : List (Entry SockAddr) → Type 0
IsInternets [] = Unit
IsInternets (e ∷ es) = IsInternet e.value × IsInternets es

pub IsInternets-IsSelfEqual :
    (es : List (Entry SockAddr)) → IsInternets es → IsSelfEqual client_ops es
unfolding delta_equals
IsInternets-IsSelfEqual [] h = tt
IsInternets-IsSelfEqual (e ∷ es) h =
    (sockaddr_equals_refl e.value h.0, IsInternets-IsSelfEqual es h.1)
