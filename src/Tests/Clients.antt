-- ===== src/Tests/Clients.antt =====
-- Clients at small tables: runs of common/client.c, and its theorems at concrete inputs.
use psnet.Prelude.{
  ◌<◌, subst, sym, inl, inr, true, ℕ, ◌+◌, ◌*◌, ◌/◌, ◌%◌, ◌≡◌, refl, Option, none, some, List, [],
  ◌∷◌, ◌++◌, map, arith, take, ◌>>=◌, add32, sub32,
}
use psnet.Libc.{Bytes, text, strtol, decimal, bytes_eq}
use psnet.Ipv6.{SockAddr, inet, sockaddr_equals, set_in_port, get_in_port}
use psnet.DeltaList.{
  DeltaList, delta_delete, get_node, scan, alloc, hash_insert, dl_insert_node, dl_remove_node,
  unlink_next, unlink_prev, ht_unlink, release,
}
use psnet.DeltaList.Operations.{delta_update, delta_remove, delta_foreach, update_node}
use psnet.DeltaList.Queue.{Entry}
use psnet.DeltaList.Append.{IsTail, entry}
use psnet.DeltaList.Delete.{Represents}
use psnet.DeltaList.Grow.{appended, appended-Represents, appended-IsTail}
use psnet.DeltaList.Whole.{new-Represents}
use psnet.Client.{
  Host, cl_ok, ResponseNode, client_ops, client_table, make_client, add_client, remove_client,
  delta_hash, delta_equals, client_json, make_list, list_clients, trim_last, clients_to_json,
}
use psnet.Client.Key.{client_ops-IsKey}
use psnet.Client.Ports.{make_client-decimal}
use psnet.Client.Nodes.{IsFilled, wire, joined}
use psnet.Client.Wire.{client_object, others, values, clients_to_json-wire}
use psnet.Jsmn.{JsmnTok}
use psnet.Parse.{InetPton}
use psnet.Parse.Listing.{list_tokens}
use psnet.DeltaList.{success}
use psnet.DeltaList.Operations.{delta_contains}
use psnet.DeltaList.Settled.{IsSettled}
use psnet.DeltaList.Clock.{clock_thread}
use psnet.Router.Keepalive.{dir_keepalive_interval, add_client-stays}

-- A host of little-endian byte order, all of whose peers are at one address.
abbrev host : Host
host = record {
  htons = λ p. p % 256 * 256 + p / 256;
  ntohs = λ p. p % 256 * 256 + p / 256;
  inet_ntop = λ a. text "10.0.0.1";
}

abbrev peer : SockAddr
peer = inet 16777226 0

abbrev table0_Represents : Represents client_ops client_table []
table0_Represents = new-Represents client_ops 1 10 (omega arith) (omega arith)

-- Port 6666 in network byte order.
abbrev first : SockAddr
first = inet 16777226 2586

abbrev one : DeltaList SockAddr
one = appended client_ops client_table first []

abbrev one_entries : List (Entry SockAddr)
one_entries = entry 0 first 10 ∷ []

one_Represents : Represents client_ops one one_entries
one_Represents =
    appended-Represents client_ops client_ops-IsKey client_table [] table0_Represents tt
      (omega arith) first (λ e i. absurd i)

one-IsTail : IsTail one one_entries
one-IsTail =
    appended-IsTail client_ops client_ops-IsKey client_table [] table0_Represents tt (omega arith)
      first (λ e i. absurd i)

program : Unit {0}
unfolding strtol decimal bytes_eq sockaddr_equals set_in_port get_in_port delta_update delta_remove
    delta_foreach get_node scan alloc hash_insert dl_insert_node dl_remove_node unlink_next
    unlink_prev delta_delete ht_unlink release update_node make_client add_client remove_client
    delta_hash delta_equals client_json make_list list_clients trim_last clients_to_json add32 sub32
program = tt

-- A client joins at port 6666 and is listed.
listed : Option Bytes
listed = do
  (_, t) ← add_client host client_table peer (text "6666")
  (_, l) ← clients_to_json host t [] none (text "5")
  some (wire l)

listed_runs : listed ≡ some (text "[{\"ip\":\"10.0.0.1\",\"port\":6666,\"ipv\":4}]\r\n\r\n")
unfolding program listed
listed_runs = refl

make_client-decimal_example : make_client host peer (decimal 70000) ≡ some (set_in_port peer 28689)
make_client-decimal_example = make_client-decimal host peer 70000 (omega arith)

clients_to_json-wire_example :
    (l : List ResponseNode) × (clients_to_json host one [] none (decimal 3) ≡ some (cl_ok, l))
    × (wire l
        ≡ text "["
          ++ (joined (map (client_object host) (take 3 (others none (values one_entries))))
              ++ text "]\r\n\r\n"))
    × IsFilled l
clients_to_json-wire_example =
    clients_to_json-wire host one one_entries none 3 one_Represents (omega arith)

-- The one address that there is.
abbrev one_address : InetPton
one_address family s = some peer

-- A parser that knows the list of one client.
abbrev knows_list : Bytes → ℕ → Option (List JsmnTok × ℕ)
knows_list msg ntok = some (list_tokens host one_address 38 (first ∷ []), 8)

one-IsSettled : IsSettled client_ops one one_entries
unfolding program
one-IsSettled = record {
  table = one_Represents;
  tail = one-IsTail;
  live = λ e i. elim i [ inl s ↦ subst (λ f. 0 < f.left) (sym s) (omega arith) | inr j ↦ absurd j ];
  self = λ e i. elim i [
    | inl s ↦ subst (λ f. client_ops.equals f.value f.value ≡ true) (sym s) refl
    | inr j ↦ absurd j
  ];
}

first_made : make_client host peer (text "6666") ≡ some first
unfolding program
first_made = refl

add_client-stays_example :
    (t₁ : DeltaList SockAddr) × (add_client host one peer (text "6666") ≡ some (success, t₁))
    × (t₂ : DeltaList SockAddr) × (clock_thread client_ops dir_keepalive_interval t₁ ≡ some t₂)
    × (delta_contains client_ops t₂ first ≡ some true)
add_client-stays_example =
    add_client-stays host one one_entries peer first (text "6666") one-IsSettled refl (omega arith)
      first_made tt refl
