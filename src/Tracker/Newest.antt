-- ===== src/Tracker/Newest.antt =====
-- What becomes of the latest peer of several that announces itself to tracker/service.c again:
-- `delta_update` of common/deltalist.c loses it.
use psnet.Prelude.{
  ℕ, ◌^◌, ◌<◌, ◌≡◌, refl, ◌∙◌, ap, arith, true, Option, some, List, [], ◌∷◌, ◌++◌, map, ap₂, length,
  length-append, suc, take, subst,
}
use psnet.Libc.{Bytes, decimal}
use psnet.Ipv6.{SockAddr}
use psnet.Ipv6.Equality.{IsInternet, sockaddr_equals_refl}
use psnet.DeltaList.{DeltaList}
use psnet.DeltaList.Operations.{delta_update, delta_size}
use psnet.DeltaList.Append.{IsTail}
use psnet.DeltaList.Listing.{length-map}
use psnet.DeltaList.Queue.{Entry, last_at}
use psnet.DeltaList.Whole.{Leads}
use psnet.DeltaList.Settled.{IsSettled}
use psnet.DeltaList.Stale.{delta_update-newest}
use psnet.DeltaList.Timed.{item}
use psnet.Client.{
  Host, ResponseNode, cl_ok, client_ops, client_list_size, clients_to_json, delta_equals,
}
use psnet.Client.Key.{client_ops-IsKey}
use psnet.Client.Nodes.{wire}
use psnet.Client.Wire.{client_list, others, clients_to_json-Leads}
use psnet.Jsmn.{JsmnTok}
use psnet.Tracker.{handle_message}
use psnet.Tracker.Datagram.{Document, parsed, request, announces, handle_message-request}
use psnet.Tracker.Table.{Peers, ListsPeers}
use psnet.Tracker.Trace.{peers-values}

-- The entries of a list with a last item.
items-last :
    (es : List (Entry SockAddr)) (ps : Peers) (p : SockAddr × ℕ)
    → map item es ≡ ps ++ p ∷ []
    → (fs : List (Entry SockAddr)) × (e : Entry SockAddr) × (es ≡ fs ++ e ∷ [])
      × (map item fs ≡ ps)
      × (item e ≡ p)
items-last [] [] p h = absurd (cc)
items-last [] (q ∷ ps) p h = absurd (cc)
items-last (e ∷ []) [] p h = ([], e, refl, refl, cc)
items-last (e ∷ f ∷ es) [] p h = absurd (cc)
items-last (e ∷ es) (q ∷ ps) p h =
    let head : item e ≡ q = cc in
    let tail : map item es ≡ ps ++ p ∷ [] = cc in
    let (fs, last, parts, view, same) = items-last es ps p tail in
    (e ∷ fs, last, ap (λ l. e ∷ l) parts, ap₂ (λ x l. x ∷ l) head view, same)

last_at-end :
    (q : Option ℕ) (es : List (Entry SockAddr)) (e : Entry SockAddr)
    → last_at q (es ++ e ∷ []) ≡ some e.at
last_at-end q [] e = refl
last_at-end q (f ∷ es) e = last_at-end (some f.at) es e

-- What `delta_update` leaves when `c` is there, behind some entries.
abbrev Lost : DeltaList SockAddr → List (Entry SockAddr) → SockAddr → Type 0
Lost t fs c =
    (t' : DeltaList SockAddr) × (delta_update client_ops t c ≡ some (1, t'))
    × Leads t' fs
    × (t'.size ≡ suc (length fs))

update_latest :
    (t : DeltaList SockAddr) (es fs : List (Entry SockAddr)) (e : Entry SockAddr)
    (first : SockAddr × ℕ) (rest : Peers) (c : SockAddr) (n : ℕ)
    → IsSettled client_ops t es
    → es ≡ fs ++ e ∷ []
    → map item fs ≡ first ∷ rest
    → item e ≡ (c, n)
    → IsInternet c
    → Lost t fs c
unfolding delta_equals
update_latest t es [] e first rest c n s parts view same inter = absurd (cc)
update_latest t es (f ∷ others) e first rest c n s parts view same inter =
    let tail : t.delta_tail ≡ some e.at =
      subst (IsTail t) parts s.tail ∙ last_at-end (some f.at) others e in
    let match : client_ops.equals e.value c ≡ true =
      ap (λ p. client_ops.equals p.0 c) same ∙ sockaddr_equals_refl c inter in
    let (t', run, links, size, _, _, _) =
      delta_update-newest client_ops client_ops-IsKey t es c s.table f others e parts tail match in
    (t', run, (omega (arith, size), links), size)

module _ (host : Host) (jsmn_parse : Bytes → ℕ → Option (List JsmnTok × ℕ)) where
  -- If the latest of several peers announces itself again, the tracker's handler ends without a
  -- fault, and it is still counted; but the list that `clients_to_json` makes of the table that
  -- it leaves has only the others, so many as are asked for, whoever is to be left out. The table stands for the peers, the parser
  -- makes the document of the message, and the peer is of an Internet family.
  pub handle_message-latest :
      (t : DeltaList SockAddr) (first : SockAddr × ℕ) (rest : Peers) (c : SockAddr) (n : ℕ)
      (addr : SockAddr) (msg : Bytes) (document : Document) (ign : Option SockAddr) (num : ℕ)
      → ListsPeers t (first ∷ (rest ++ (c, n) ∷ []))
      → jsmn_parse msg 256 ≡ parsed document
      → request host addr msg document ≡ announces c
      → IsInternet c
      → num < 2 ^ 31
      → (t' : DeltaList SockAddr) × (handle_message host jsmn_parse t addr msg ≡ some t')
        × (client_list_size t' ≡ length (first ∷ (rest ++ (c, n) ∷ [])))
        × (l : List ResponseNode) × (clients_to_json host t' [] ign (decimal num) ≡ some (cl_ok, l))
        × (wire l ≡ client_list host (take num (others ign (map (λ p. p.0) (first ∷ rest)))))
  unfolding client_list_size delta_size
  handle_message-latest t first rest c n addr msg document ign num h read asked inter few =
      let (fs, e, parts, view, same) = items-last h.entries (first ∷ rest) (c, n) h.view in
      let (t', run, leads, size) =
        update_latest t h.entries fs e first rest c n h.settled parts view same inter in
      let (l, made, text, _) = clients_to_json-Leads host t' fs ign num leads few in
      (
        t',
        handle_message-request host jsmn_parse t addr msg document read ∙ rw (asked, run) refl,
        omega (arith, size, length-map item fs, ap length view, length-append rest ((c, n) ∷ [])),
        l,
        made,
        text
            ∙ ap (λ cs. client_list host (take num (others ign cs)))
                (peers-values fs ∙ ap (map (λ p. p.0)) view),
      )
