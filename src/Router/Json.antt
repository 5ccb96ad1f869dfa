-- ===== src/Router/Json.antt =====
-- The list of routers that router/router.c makes for `discover`.
use psnet.Prelude.{
  ℕ, ◌≤◌, ◌<◌, ◌≡◌, refl, ◌∙◌, ap, List, [], ◌∷◌, ◌++◌, map, arith, append_assoc, length,
  length-append, take, take_whole, ℤ,
}
use psnet.Libc.{text, decimal}
use psnet.Libc.Digits.{length-decimal}
use psnet.Ipv6.{SockAddr, inet, inet6, other, get_in_port}
use psnet.Client.{Host, string_node, client_json, ip_version, trim_last}
use psnet.Client.Nodes.{wire, joined, comma_node, wire-trim_last, wire-append}
use psnet.Client.Wire.{client_object, client_json-client_object}
use psnet.Router.{router_node, router_nodes, routers_to_json}

-- What the code relies on: an address as text is shorter than INET6_ADDRSTRLEN, and a port has 16
-- bits.
pub record IsHost (host : Host) : Type 0 where
  pub length-inet_ntop : (a : SockAddr) → length (host.inet_ntop a) ≤ 45
  pub ntohs_bound : (p : ℕ) → host.ntohs p < 65536

module _ (host : Host) (is_host : IsHost host) where
  length-ip_version : (a : SockAddr) → length (ip_version a) ≡ 1
  length-ip_version (inet a p) = refl
  length-ip_version (inet6 a p) = refl
  length-ip_version (other f a p) = refl

  -- ELM_STRLEN is enough for an element and its NUL.
  length-client_json : (a : SockAddr) → length (client_json host a) ≤ 76
  unfolding client_json
  length-client_json a =
      let tail = length-append (ip_version a) (text "},") in
      let middle =
        length-append (decimal (host.ntohs (get_in_port a)))
          (text ",\"ipv\":" ++ (ip_version a ++ text "},")) in
      let front = length-append (host.inet_ntop a) (
        text "\",\"port\":"
        ++ (decimal (host.ntohs (get_in_port a))
            ++ (text ",\"ipv\":" ++ (ip_version a ++ text "},")))) in
      let digits =
        length-decimal 4 (host.ntohs (get_in_port a))
          (omega (arith, is_host.ntohs_bound (get_in_port a))) in
      omega (arith, front, middle, tail, digits, length-ip_version a, is_host.length-inet_ntop a)

  router_node-comma_node : (a : SockAddr) → router_node host a ≡ comma_node (client_object host a)
  unfolding router_node comma_node
  router_node-comma_node a =
      let whole : take 76 (client_json host a) ≡ client_json host a =
        take_whole 76 (client_json host a) (length-client_json a) in
      ap (λ s. record { chars = s; len = length (client_json host a) }) whole
      ∙ ap string_node (client_json-client_object host a)

  router_nodes-map :
      (rs : List SockAddr) → router_nodes host rs ≡ map comma_node (map (client_object host) rs)
  unfolding router_nodes
  router_nodes-map [] = refl
  router_nodes-map (r ∷ rs) =
      ap (λ x. x ∷ router_nodes host rs) (router_node-comma_node r)
      ∙ ap (λ l. comma_node (client_object host r) ∷ l) (router_nodes-map rs)

  -- `routers_to_json` writes a JSON array of all routers, in order, whatever the number that it is
  -- given, on a host whose addresses and ports are as short as they should be.
  pub routers_to_json-wire :
      (rs : List SockAddr) (n : ℤ)
      → wire (routers_to_json host rs [] n)
        ≡ text "[" ++ (joined (map (client_object host) rs) ++ text "]\r\n\r\n")
  unfolding routers_to_json
  routers_to_json-wire rs n =
      let objects = map (client_object host) rs in
      ap (λ l. wire (trim_last (string_node (text "[") ∷ l) ++ string_node (text "]\r\n\r\n") ∷ []))
        (router_nodes-map rs)
      ∙ wire-append (trim_last (string_node (text "[") ∷ map comma_node objects)) _
      ∙ ap (λ r. r ++ text "]\r\n\r\n") (wire-trim_last (string_node (text "[")) objects)
      ∙ append_assoc (text "[") (joined objects) _
