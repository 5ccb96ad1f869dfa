-- ===== src/Client.antt =====
-- common/client.c and include/client.h: the table of clients, kept by the tracker and the routers.
pub mod Key
pub mod Ports
pub mod Table
pub mod Wire
pub mod Nodes
pub mod Fanout
use psnet.Prelude.{
  ℕ, zero, suc, ◌+◌, ◌-◌, ◌%◌, ◌^◌, Bool, true, false, not, ◌&&◌, ◌||◌, Option, none, some, List,
  [], ◌∷◌, ◌++◌, ltb, leb, ◌==◌, if◌then◌else◌, ◌>>=◌, length, take, ℤ, pos, negsuc, is_neg, above,
  to_int32, low32,
}
use psnet.Libc.{Bytes, text, strtol, decimal}
use psnet.Ipv6.{SockAddr, inet, inet6, other, get_in_port, set_in_port, sockaddr_equals}
use psnet.DeltaList.{Ops, DeltaList, Rc, success, failure, new}
use psnet.DeltaList.Operations.{delta_update, delta_remove, delta_foreach, delta_size}

-- What the code takes from the system: the byte order of ports, and the text of an address.
pub record Host : Type 0 where
  pub htons : ℕ → ℕ
  pub ntohs : ℕ → ℕ
  pub inet_ntop : SockAddr → Bytes

pub data ClientRc : Type 0 where
  cl_ok cl_badip cl_badport cl_badnum cl_notfound : ClientRc

-- PORT_MAX of include/types.h, as it is written there.
abbrev pub port_max : ℕ
port_max = 665535

-- An entry of a list of strings to be sent: `len` bytes of `chars` are meant.
pub record ResponseNode : Type 0 where
  pub chars : Bytes
  pub len : ℕ

first_byte : Bytes → ℕ
first_byte [] = 0
first_byte (b ∷ bs) = b

-- The sum of an `in_addr_t` and a port is an unsigned int.
unfoldable pub delta_hash : SockAddr → ℕ
unfolding first_byte
delta_hash (inet a p) = (a + p) % 2 ^ 32
delta_hash (inet6 a p) = (first_byte a + p) % 2 ^ 32
delta_hash (other f a p) = 0

unfoldable pub delta_equals : SockAddr → SockAddr → Bool
delta_equals a b = sockaddr_equals a b

abbrev pub client_ops : Ops SockAddr
client_ops = record { hash = delta_hash; equals = delta_equals }

abbrev pub client_table : DeltaList SockAddr
client_table = new 1 10

abbrev pub is_empty : Bytes → Bool
is_empty [] = true
is_empty (b ∷ bs) = false

-- A record for `flood_to_clients`: what `udp_send` is called with.
pub record Datagram : Type 0 where
  pub to : SockAddr
  pub payload : Bytes

-- The conversion of a long to an `in_port_t`.
abbrev pub to_port : ℤ → ℕ
to_port v = low32 v % 2 ^ 16

-- The argument of `make_list`.
pub record MakeListArg : Type 0 where
  pub list : List ResponseNode
  pub ignore : Option SockAddr
  pub i : ℕ
  pub n : ℕ

abbrev pub is_ignored : Option SockAddr → SockAddr → Bool
is_ignored none client = false
is_ignored (some ignore) client = delta_equals client ignore

-- `head->prev != head->next`: of a list with more than one entry the last is shortened by one.
unfoldable pub trim_last : List ResponseNode → List ResponseNode
trim_last [] = []
trim_last (x ∷ []) = x ∷ []
trim_last (x ∷ y ∷ []) = x ∷ record y { len = y.len - 1 } ∷ []
trim_last (x ∷ y ∷ z ∷ rest) = x ∷ trim_last (y ∷ z ∷ rest)

abbrev pub string_node : Bytes → ResponseNode
string_node s = record { chars = s; len = length s }

abbrev pub ip_version : SockAddr → Bytes
ip_version (inet a p) = text "4"
ip_version (inet6 a p) = text "6"
ip_version (other f a p) = text "6"

module _ (host : Host) where
  -- `none` is the return value -1; then `addr` is unchanged.
  unfoldable pub make_client : SockAddr → Bytes → Option SockAddr
  make_client addr port =
      let r = strtol port in
      if is_neg r.0 || (above r.0 port_max || not (is_empty r.1))
      then none
      else some (set_in_port addr (host.htons (to_port r.0)))

  -- With a bad port the copy of the address is leaked; the table is not touched.
  unfoldable pub add_client :
      DeltaList SockAddr → SockAddr → Bytes → Option (Rc × DeltaList SockAddr)
  add_client t addr port = elim (make_client addr port) [
    | none ↦ some (failure, t)
    | some client ↦ delta_update client_ops t client >>= λ r. some (success, r.1)
  ]

  unfoldable pub remove_client :
      DeltaList SockAddr → SockAddr → Bytes → Option (Rc × DeltaList SockAddr)
  remove_client t addr port = elim (make_client addr port) [
    | none ↦ some (failure, t)
    | some client ↦ delta_remove client_ops t client
  ]

  -- The format of `make_list`.
  unfoldable pub client_json : SockAddr → Bytes
  client_json client =
      text "{\"ip\":\""
      ++ (host.inet_ntop client
          ++ (text "\",\"port\":"
              ++ (decimal (host.ntohs (get_in_port client))
                  ++ (text ",\"ipv\":" ++ (ip_version client ++ text "},")))))

  unfoldable pub make_list : SockAddr → MakeListArg → MakeListArg × Bool
  make_list client arg =
      if leb arg.n arg.i
      then (arg, true)
      else if is_ignored arg.ignore client
      then (arg, false)
      else (
        record arg { i = arg.i + 1; list = arg.list ++ string_node (client_json client) ∷ [] },
        false,
      )

  -- `num` is an int that is not negative where the list is made.
  unfoldable pub list_clients :
      DeltaList SockAddr → List ResponseNode → Option SockAddr → ℕ → Option (List ResponseNode)
  list_clients t head ign num = do
    arg ←
        delta_foreach t make_list
          (record { list = head ++ string_node (text "[") ∷ []; ignore = ign; i = 0; n = num })
    some (trim_last arg.list ++ string_node (text "]\r\n\r\n") ∷ [])

  unfoldable pub clients_to_json :
      DeltaList SockAddr
      → List ResponseNode
      → Option SockAddr
      → Bytes
      → Option (ClientRc × List ResponseNode)
  clients_to_json t head ign n =
      let r = strtol n in
      elim (to_int32 r.0) [
        | negsuc m ↦ some (cl_badnum, head)
        | pos num ↦
            if is_empty r.1
            then (list_clients t head ign num >>= λ l. some (cl_ok, l))
            else some (cl_badnum, head)
      ]

-- The datagrams that have been sent are the `arg` of the iteration.
unfoldable pub fwd_to_client : Bytes → SockAddr → List Datagram → List Datagram × Bool
fwd_to_client payload client sent = (sent ++ record { to = client; payload = payload } ∷ [], false)

unfoldable pub flood_to_clients :
    DeltaList SockAddr → Bytes → List Datagram → Option (List Datagram)
flood_to_clients t payload sent = delta_foreach t (fwd_to_client payload) sent

unfoldable pub client_list_size : DeltaList SockAddr → ℕ
client_list_size t = delta_size t
