-- ===== src/Tracker/Trace.antt =====
-- The tracker over any sequence of datagrams (`handle_message` of tracker/service.c) and turns of the
-- clock of its table of clients (`delta_tick` of common/deltalist.c): what the list of its clients
-- then is. Each changes the table once, under its lock.
use psnet.Prelude.{
  ℕ, ◌<◌, ◌^◌, ◌≡◌, refl, ◌∙◌, ap, Option, some, List, [], ◌∷◌, map, length, take, ◌>>=◌,
}
use psnet.Libc.{Bytes, decimal}
use psnet.Ipv6.{SockAddr}
use psnet.DeltaList.{DeltaList, delta_tick}
use psnet.DeltaList.Queue.{Entry}
use psnet.DeltaList.Timed.{item, elapse}
use psnet.DeltaList.Listing.{delta_size-listed, delta_tick-listed}
use psnet.Client.{
  Host, ResponseNode, cl_ok, client_ops, client_table, client_list_size, clients_to_json,
}
use psnet.Client.Key.{client_ops-IsKey}
use psnet.Client.Nodes.{wire}
use psnet.Client.Wire.{client_list, others, values, clients_to_json-wire}
use psnet.Jsmn.{JsmnTok}
use psnet.Tracker.{handle_message}
use psnet.Tracker.Datagram.{Document, parsed, request, handle_message-request}
use psnet.Tracker.Table.{
  Peers, fulfil, Suits, ListsPeers, client_table-ListsPeers, carry-ListsPeers,
}

-- A datagram, with the document that the parser is to make of it, or a turn of the clock.
pub data Event : Type 0 where
  datagram : (addr : SockAddr) (msg : Bytes) (document : Document) → Event
  clock_turn : Event

-- What the peers are after some events.
abbrev pub follow : Host → Peers → List Event → Peers
follow host ps [] = ps
follow host ps (datagram addr msg document ∷ events) =
    follow host (fulfil ps (request host addr msg document)) events
follow host ps (clock_turn ∷ events) = follow host (elapse ps) events

pub peers-values : (es : List (Entry SockAddr)) → values es ≡ map (λ p. p.0) (map item es)
peers-values [] = refl
peers-values (e ∷ es) = ap (λ cs. e.value ∷ cs) (peers-values es)

module _ (host : Host) (jsmn_parse : Bytes → ℕ → Option (List JsmnTok × ℕ)) where
  -- The events, one after the other; each changes the table under its lock.
  unfoldable pub run : DeltaList SockAddr → List Event → Option (DeltaList SockAddr)
  run t [] = some t
  run t (datagram addr msg document ∷ events) =
      handle_message host jsmn_parse t addr msg >>= λ t'. run t' events
  run t (clock_turn ∷ events) = delta_tick client_ops t >>= λ t'. run t' events

  -- The parser makes its document of each message, and each request is one that suits the peers.
  abbrev pub Proceeds : Peers → List Event → Type 0
  Proceeds ps [] = Unit
  Proceeds ps (datagram addr msg document ∷ events) =
      (jsmn_parse msg 256 ≡ parsed document)
      × Suits ps (request host addr msg document)
      × Proceeds (fulfil ps (request host addr msg document)) events
  Proceeds ps (clock_turn ∷ events) = Proceeds (elapse ps) events

  run-ListsPeers :
      (events : List Event) (t : DeltaList SockAddr) (ps : Peers)
      → ListsPeers t ps
      → Proceeds ps events
      → (t' : DeltaList SockAddr) × (run t events ≡ some t') × ListsPeers t' (follow host ps events)
  unfolding run
  run-ListsPeers [] t ps h p = (t, refl, h)
  run-ListsPeers (datagram addr msg document ∷ events) t ps h (read, suits, p) =
      let q = request host addr msg document in
      let (t₁, done, h₁) = carry-ListsPeers t ps q h suits in
      let (t', rest, h') = run-ListsPeers events t₁ (fulfil ps q) h₁ p in
      (t', rw (handle_message-request host jsmn_parse t addr msg document read, done) rest, h')
  run-ListsPeers (clock_turn ∷ events) t ps h p =
      let (t₁, done, h₁) =
        delta_tick-listed client_ops client_table.interval t ps h client_ops-IsKey in
      let (t', rest, h') = run-ListsPeers events t₁ (elapse ps) h₁ p in (t', rw done rest, h')

  -- From its start on, over any sequence of datagrams and turns of the clock, the tracker's handlers
  -- end without a fault, and its table stands for the peers that the datagrams announce and
  -- withdraw and the clock lets go, in this order. The parser rejects each message or makes a
  -- document of it, an announced peer is of an Internet family and finds room, and no datagram is
  -- for the latest of several peers.
  pub run-follow :
      (events : List Event)
      → Proceeds [] events
      → (t : DeltaList SockAddr) × (run client_table events ≡ some t)
        × ListsPeers t (follow host [] events)
  run-follow events p = run-ListsPeers events client_table [] client_table-ListsPeers p

  -- After such a sequence, `client_list_size` counts the peers, and `clients_to_json` makes the JSON
  -- list of the first so many of them that are not the one to be left out.
  pub run-clients_to_json :
      (events : List Event) (ign : Option SockAddr) (num : ℕ)
      → Proceeds [] events
      → num < 2 ^ 31
      → (t : DeltaList SockAddr) × (run client_table events ≡ some t)
        × (client_list_size t ≡ length (follow host [] events))
        × (l : List ResponseNode) × (clients_to_json host t [] ign (decimal num) ≡ some (cl_ok, l))
        × (wire l
            ≡ client_list host (take num (others ign (map (λ p. p.0) (follow host [] events)))))
  unfolding client_list_size
  run-clients_to_json events ign num p n =
      let (t, done, h) = run-follow events p in
      let es = h.entries in
      let (l, made, text, _) = clients_to_json-wire host t es ign num h.settled.table n in
      (
        t,
        done,
        delta_size-listed client_ops client_table.interval t (follow host [] events) h,
        l,
        made,
        text
            ∙ ap (λ cs. client_list host (take num (others ign cs)))
                (peers-values es ∙ ap (map (λ p. p.0)) h.view),
      )
