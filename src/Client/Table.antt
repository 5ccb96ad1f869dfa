-- ===== src/Client/Table.antt =====
-- `add_client` and `remove_client` of common/client.c, as operations on a sequence of clients.
use psnet.Prelude.{
  ℕ, suc, ◌<◌, ◌^◌, ◌≡◌, refl, ◌∙◌, false, Option, none, some, List, length, if◌then◌else◌,
}
use psnet.Libc.{Bytes}
use psnet.Ipv6.{SockAddr}
use psnet.DeltaList.{DeltaList, Rc, success, failure}
use psnet.DeltaList.Operations.{delta_update, delta_remove}
use psnet.DeltaList.Queue.{Entry}
use psnet.DeltaList.Append.{IsTail}
use psnet.DeltaList.Delete.{Represents}
use psnet.DeltaList.Spec.{refresh, is_newest, erase, member}
use psnet.DeltaList.Update.{delta_update-refresh}
use psnet.DeltaList.Refine.{delta_remove-erase}
use psnet.Client.{Host, make_client, add_client, remove_client, client_ops}
use psnet.Client.Key.{client_ops-IsKey}

module _ (host : Host) (t : DeltaList SockAddr) (es : List (Entry SockAddr)) (addr : SockAddr)
    (port : Bytes) where
  -- What `add_client` makes of the clients: with a good port the client is at the end, with the
  -- full interval; with a bad one nothing changes.
  abbrev pub added : Option SockAddr → List (Entry SockAddr)
  added none = es
  added (some client) = refresh client_ops client t.brk t.interval es

  abbrev pub Settled : Option SockAddr → Type 0
  Settled none = Unit
  Settled (some client) = is_newest client_ops client es ≡ false

  abbrev pub answer : Option SockAddr → Rc
  answer none = failure
  answer (some client) = success

  abbrev pub AddedClient : Option SockAddr → Type 0
  AddedClient o =
      (t' : DeltaList SockAddr) × (add_client host t addr port ≡ some (answer o, t'))
      × Represents client_ops t' (added o)
      × IsTail t' (added o)

  -- `add_client` does not fault, and adds the client or renews it, unless the port is bad or
  -- the client is the newest of several.
  pub add_client-refresh :
      Represents client_ops t es
      → IsTail t es
      → suc (length es) < 2 ^ 32
      → Settled (make_client host addr port)
      → AddedClient (make_client host addr port)
  unfolding add_client
  add_client-refresh x tail room old = go (make_client host addr port) refl old
    where
      bad : make_client host addr port ≡ none → add_client host t addr port ≡ some (failure, t)
      bad e = rw (add_client, e) refl

      good :
          (client : SockAddr) (rc : ℕ) (t' : DeltaList SockAddr)
          → make_client host addr port ≡ some client
          → delta_update client_ops t client ≡ some (rc, t')
          → add_client host t addr port ≡ some (success, t')
      good client rc t' e u = rw (add_client, e, u) refl

      go : (o : Option SockAddr) → make_client host addr port ≡ o → Settled o → AddedClient o
      go none e s = (t, bad e, x, tail)
      go (some client) e s =
          let (t', u, y, m) =
            delta_update-refresh client_ops client_ops-IsKey t es client x tail room s in
          (t', good client _ t' e u, y, m)

  abbrev pub removed : Option SockAddr → List (Entry SockAddr)
  removed none = es
  removed (some client) = erase client_ops client es

  abbrev pub removal : Option SockAddr → Rc
  removal none = failure
  removal (some client) = if member client_ops client es then success else failure

  abbrev pub RemovedClient : Option SockAddr → Type 0
  RemovedClient o =
      (t' : DeltaList SockAddr) × (remove_client host t addr port ≡ some (removal o, t'))
      × Represents client_ops t' (removed o)
      × (t'.acted ≡ t.acted)

  -- `remove_client` does not fault, and takes the client out; with a bad port, or where the client
  -- is not there, it fails and leaves the clients alone.
  pub remove_client-erase : Represents client_ops t es → RemovedClient (make_client host addr port)
  unfolding remove_client
  remove_client-erase x = go (make_client host addr port) refl
    where
      bad : make_client host addr port ≡ none → remove_client host t addr port ≡ some (failure, t)
      bad e = rw (remove_client, e) refl

      good :
          (client : SockAddr)
          → make_client host addr port ≡ some client
          → remove_client host t addr port ≡ delta_remove client_ops t client
      good client e = rw (remove_client, e) refl

      go : (o : Option SockAddr) → make_client host addr port ≡ o → RemovedClient o
      go none e = (t, bad e, x, refl)
      go (some client) e =
          let (t', p) = delta_remove-erase client_ops client_ops-IsKey t es client x in
          (t', good client e ∙ p.0, p.1, p.3)
