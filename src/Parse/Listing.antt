-- ===== src/Parse/Listing.antt =====
-- The list of nodes that common/client.c writes, read by `parse_node_list` of common/parse.c.
use psnet.Prelude.{
  ℕ, zero, suc, ◌+◌, ◌*◌, ◌<◌, ◌≤◌, ◌≡◌, refl, ◌∙◌, sym, ap, arith, true, false, Option, some, List,
  [], ◌∷◌, ◌++◌, map, append_assoc, append-nil, ltb, length, ◌^◌,
}
use psnet.Libc.{Bytes, text}
use psnet.Ipv6.{SockAddr}
use psnet.DeltaList.{DeltaList}
use psnet.DeltaList.Queue.{Entry}
use psnet.Client.{Host}
use psnet.Client.Nodes.{joined}
use psnet.Client.Wire.{client_object, client_list}
use psnet.Jsmn.{JsmnTok, jsmn_array, skip_value, from}
use psnet.Parse.{InetPton, node_list_loop, parsed_node_list, parse_node_list}
use psnet.Parse.Nodes.{from_past}
use psnet.Parse.Entry.{IsListed, entry_end, client_tokens, parse_node-client}

module _ (host : Host) (inet_pton : InetPton) where
  abbrev pub AllListed : List SockAddr → Type 0
  AllListed [] = Unit
  AllListed (c ∷ cs) = IsListed host inet_pton c × AllListed cs

  abbrev objects : List SockAddr → Bytes
  objects cs = joined (map (client_object host) cs)

  -- The text that `clients_to_json` makes of the clients.
  abbrev pub list_text : List SockAddr → Bytes
  list_text cs = client_list host cs

  abbrev entries_tokens : (o : ℕ) → List SockAddr → List JsmnTok
  entries_tokens o [] = []
  entries_tokens o (c ∷ cs) =
      client_tokens host inet_pton o c (entries_tokens (entry_end host inet_pton o c + 1) cs)

  -- Its tokens, as the parser documents them; the array ends at `end`.
  abbrev pub list_tokens : (end : ℕ) → List SockAddr → List JsmnTok
  list_tokens end cs =
      record { kind = jsmn_array; start = 0; end = end; size = length cs } ∷ entries_tokens 1 cs

  -- What stands behind the first of the entries.
  abbrev behind : List SockAddr → Bytes → Bytes
  behind [] tail = tail
  behind (c ∷ cs) tail = text "," ++ (objects (c ∷ cs) ++ tail)

  objects_first :
      (c : SockAddr) (cs : List SockAddr) (tail : Bytes)
      → objects (c ∷ cs) ++ tail ≡ client_object host c ++ behind cs tail
  objects_first c [] tail = refl
  objects_first c (d ∷ cs) tail =
      append_assoc (client_object host c) (text "," ++ objects (d ∷ cs)) tail

  -- The entries that are left are in the message from `o` on.
  abbrev Remain : (msg : Bytes) (o : ℕ) → List SockAddr → Bytes → Type 0
  Remain msg o [] tail = Unit
  Remain msg o (c ∷ cs) tail = from o msg ≡ objects (c ∷ cs) ++ tail

  Remain-behind :
      (msg : Bytes) (o : ℕ) (cs : List SockAddr) (tail : Bytes)
      → from o msg ≡ behind cs tail
      → Remain msg (o + 1) cs tail
  Remain-behind msg o [] tail h = tt
  Remain-behind msg o (c ∷ cs) tail h = from_past o msg (text ",") (objects (c ∷ cs) ++ tail) h

  node_list_loop-entries :
      (cs : List SockAddr) (fuel : ℕ) (msg : Bytes) (o i ntok : ℕ) (head : List SockAddr)
      (tail : Bytes)
      → AllListed cs
      → length cs < fuel
      → ntok ≡ i + length cs
      → Remain msg o cs tail
      → node_list_loop host inet_pton fuel msg (entries_tokens o cs) i ntok head
        ≡ some (true, head ++ cs)
  unfolding node_list_loop skip_value
  node_list_loop-entries cs zero msg o i ntok head tail x f n r = absurd (omega arith)
  node_list_loop-entries [] (suc fuel) msg o i ntok head tail x f n r =
      let b : ltb i ntok ≡ false = ground (arith, n) in
      rw b (ap (λ l. some (true, l)) (sym (append-nil head)))
  node_list_loop-entries (c ∷ cs) (suc fuel) msg o i ntok head tail x f n r =
      let b : ltb i ntok ≡ true = ground (arith, n) in
      let o' = entry_end host inet_pton o c in
      let (e, end) =
        parse_node-client host inet_pton msg o c (behind cs tail) (entries_tokens (o' + 1) cs) x.0
          (r ∙ objects_first c cs tail) in
      rw (b, e)
        (node_list_loop-entries cs fuel msg (o' + 1) _ _ (head ++ c ∷ []) tail x.1 (omega arith)
            (omega (arith, n)) (Remain-behind msg o' cs tail end)
          ∙ ap (λ l. some (true, l)) (append_assoc head (c ∷ []) cs))

  length-entries_tokens : (o : ℕ) (cs : List SockAddr) → length cs ≤ length (entries_tokens o cs)
  length-entries_tokens o [] = omega arith
  length-entries_tokens o (c ∷ cs) =
      omega (arith, length-entries_tokens (entry_end host inet_pton o c + 1) cs)

  Remain-all : (cs : List SockAddr) → Remain (list_text cs) 1 cs (text "]\r\n\r\n")
  Remain-all [] = tt
  Remain-all (c ∷ cs) = refl

  module _ (jsmn_parse : Bytes → ℕ → Option (List JsmnTok × ℕ)) where
    -- `parse_node_list` reads the clients back from the text that `clients_to_json` makes of them,
    -- and puts them behind those that are in its list, whenever `max_tok` is an int, the parser
    -- gets the tokens of the text right and each client is one that inet_pton and htons read back.
    pub parse_node_list-list_text :
        (head cs : List SockAddr) (nentries end toknext : ℕ)
        → AllListed cs
        → 1 + 10 * nentries < 2 ^ 31
        → jsmn_parse (list_text cs) (1 + 10 * nentries) ≡ some (list_tokens end cs, toknext)
        → parse_node_list host inet_pton jsmn_parse head (list_text cs) nentries
          ≡ some (true, head ++ cs)
    unfolding parse_node_list parsed_node_list
    parse_node_list-list_text head cs nentries end toknext x few h =
        let b : ltb (1 + 10 * nentries) (2 ^ 31) ≡ true = ground arith in
        rw b (
          ap (parsed_node_list host inet_pton head (list_text cs)) h
          ∙ node_list_loop-entries cs (suc (length (entries_tokens 1 cs))) (list_text cs) 1 1
              (length cs + 1) head (text "]\r\n\r\n") x (omega (arith, length-entries_tokens 1 cs))
              (omega arith) (Remain-all cs))
