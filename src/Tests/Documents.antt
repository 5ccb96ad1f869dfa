-- ===== src/Tests/Documents.antt =====
-- common/jsmn.c and common/parse.c at a document whose first key only begins with the one sought.
use psnet.Prelude.{ℕ, ◌≡◌, refl, true, false, Option, some, List, [], ◌∷◌}
use psnet.Libc.{Bytes, text, strtol}
use psnet.Ipv6.{inet, set_in_port}
use psnet.Client.{Host}
use psnet.Jsmn.{JsmnTok, jsmn_get_value, jsmn_toklen}
use psnet.Jsmn.Tree.{Values, primitive, string, array, object, nil, cons, tokens}
use psnet.Jsmn.Lookup.{field, IsPlace, jsmn_get_value-field}
use psnet.Parse.{InetPton, node_checked, node_entry, copy_token}
use psnet.Parse.Document.{node_of, nodes_of}

abbrev host : Host
host = record { htons = λ p. p; ntohs = λ p. p; inet_ntop = λ a. text "10.0.0.1" }

-- Every string is an address.
abbrev inet_pton : InetPton
inet_pton family s = some (inet 16777226 0)

abbrev ipv_first : Bytes
ipv_first = text "[{\"ipv\":4,\"ip\":\"10.0.0.1\",\"port\":5}]"

abbrev ip_first : Bytes
ip_first = text "[{\"ip\":\"10.0.0.1\",\"ipv\":4,\"port\":5}]"

-- The keys and values of the two nodes.
abbrev ipv_values : Values
ipv_values = cons (string 3 6) (
    cons (primitive 8 9) (
      cons (string 11 13) (cons (string 16 24) (cons (string 27 31) (cons (primitive 33 34) nil)))))

abbrev ip_values : Values
ip_values = cons (string 3 5) (
    cons (string 8 16) (
      cons (string 19 22)
        (cons (primitive 24 25) (cons (string 27 31) (cons (primitive 33 34) nil)))))

abbrev knows : Values → Bytes → ℕ → Option (List JsmnTok × ℕ)
knows vs msg ntok = some (tokens (array 0 36 (cons (object 1 35 vs) nil)) [], 8)

-- The key sought is `ip`, and the value found that of `ipv`.
jsmn_get_value-field_example :
    (jsmn_get_value ipv_first (tokens (object 1 35 ipv_values) []) (text "ip") ≡ some (some 2))
    × IsPlace (tokens (object 1 35 ipv_values) []) (some (2, primitive 8 9))
unfolding field
jsmn_get_value-field_example = jsmn_get_value-field ipv_first (text "ip") 1 35 ipv_values []

-- A node with the key `ipv` in front of `ip` is refused, and so is the list.
ipv_first_runs :
    nodes_of host inet_pton ipv_first [] (cons (object 1 35 ipv_values) nil) ≡ some (false, [])
unfolding nodes_of node_of field node_checked
ipv_first_runs = refl

ip_first_runs :
    nodes_of host inet_pton ip_first [] (cons (object 1 35 ip_values) nil)
    ≡ some (true, inet 16777226 5 ∷ [])
unfolding nodes_of node_of field node_checked node_entry copy_token jsmn_toklen strtol set_in_port
ip_first_runs = refl
