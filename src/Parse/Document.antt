-- ===== src/Parse/Document.antt =====
-- `parse_node_list` of common/parse.c on any document, and a reading of the document itself.
use psnet.Prelude.{
  ℕ, Bool, true, false, Option, none, some, List, [], ◌∷◌, ◌++◌, leb, ◌>>=◌, if◌then◌else◌,
}
use psnet.Libc.{Bytes, text}
use psnet.Ipv6.{SockAddr}
use psnet.Client.{Host}
use psnet.Jsmn.Tree.{Value, object, Values, nil, cons, count, root}
use psnet.Jsmn.Lookup.{field}
use psnet.Parse.{InetPton, node_checked}

module _ (host : Host) (inet_pton : InetPton) where
  -- The values behind the keys of a node, checked if all three are there.
  abbrev checked_values :
      (msg : Bytes) (ip port ipv : Option (ℕ × Value)) → Option (Option SockAddr)
  checked_values msg (some ip) (some port) (some ipv) =
      node_checked host inet_pton msg (root ip.1) (root port.1) (root ipv.1)
  checked_values msg _ _ _ = some none

  -- A node that is an object with these keys and values.
  unfoldable pub node_of : (msg : Bytes) → Values → Option (Option SockAddr)
  node_of msg vs =
      checked_values msg (field msg (text "ip") 1 vs) (field msg (text "port") 1 vs)
        (field msg (text "ipv") 1 vs)

  -- The nodes of a list, behind those in `head`, up to the first that is not an object of three keys
  -- at least or that cannot be read.
  -- It is called with a number of nodes for which `max_tok`, ten for each and one more, is an int.
  unfoldable pub nodes_of :
      (msg : Bytes) (head : List SockAddr) → Values → Option (Bool × List SockAddr)
  nodes_of msg head nil = some (true, head)
  nodes_of msg head (cons (object s e vs) ws) =
      let rest = λ (addr : SockAddr). nodes_of msg (head ++ addr ∷ []) ws in
      if leb 6 (count vs)
      then (node_of msg vs >>= λ new. elim new [
        | none ↦ some (false, head)
        | some addr ↦ rest addr
      ])
      else some (false, head)
  nodes_of msg head (cons v ws) = some (false, head)

  abbrev turn :
      (sized : Bool)
      → Option (Option SockAddr)
      → (SockAddr → Option (Bool × List SockAddr))
      → List SockAddr
      → Option (Bool × List SockAddr)
  turn sized found rest head =
      if sized
      then (found >>= λ new. elim new [ none ↦ some (false, head) | some addr ↦ rest addr ])
      else some (false, head)
