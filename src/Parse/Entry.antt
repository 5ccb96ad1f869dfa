-- ===== src/Parse/Entry.antt =====
-- An entry for a client, as `make_list` of common/client.c writes it, read by `parse_node` of
-- common/parse.c.
use psnet.Prelude.{
  ℕ, ◌+◌, ◌^◌, ◌<◌, ◌≡◌, refl, ◌∙◌, ap, arith, true, false, ◌||◌, some, List, [], ◌∷◌, ◌++◌,
  append_assoc, ltb, ◌==◌, length, take-append, pos, above,
}
use psnet.Libc.{Bytes, text, decimal, is_digit, char_at, c_string}
use psnet.Libc.Digits.{strtol-decimal_exact, is_digit-decimal, length-decimal}
use psnet.Libc.Strings.{HasNoNul, decimal-HasNoNul, c_string_whole}
use psnet.Ipv6.{SockAddr, inet, inet6, other, get_in_port, set_in_port}
use psnet.Client.{Host, ip_version, port_max, to_port}
use psnet.Client.Wire.{client_object}
use psnet.Jsmn.{JsmnTok, jsmn_toklen, from}
use psnet.Parse.{copy_token, family_of, InetPton, node_entry, node_checked, parse_node}
use psnet.Parse.Nodes.{str, prim, entry_tokens, from_past, char_at-from, parse_node-checked}

copy_token_whole :
    (size : ℕ) (msg : Bytes) (tok : JsmnTok) (s r : Bytes)
    → from tok.start msg ≡ s ++ r
    → jsmn_toklen tok ≡ length s
    → length s < size
    → HasNoNul s
    → copy_token size msg tok ≡ some s
unfolding copy_token
copy_token_whole size msg tok s r h e l n =
    let b : ltb (length s) size ≡ true = ground arith in
    rw (e, b, h) (ap some (ap c_string (take-append s r) ∙ c_string_whole s n))

toklen-of : (tok : JsmnTok) (n : ℕ) → tok.end ≡ tok.start + n → jsmn_toklen tok ≡ n
unfolding jsmn_toklen
toklen-of tok n h = omega (arith, h)

above-port : (n : ℕ) → n < 2 ^ 16 → above (pos n) port_max ≡ false
above-port n h = ground arith

to_port_small : (n : ℕ) → n < 2 ^ 16 → to_port (pos n) ≡ n
to_port_small n h = omega arith

abbrev pub version : SockAddr → ℕ
version (inet a p) = b'4'
version (inet6 a p) = b'6'
version (other f a p) = b'6'

ip_version-version : (c : SockAddr) → ip_version c ≡ version c ∷ []
ip_version-version (inet a p) = refl
ip_version-version (inet6 a p) = refl
ip_version-version (other f a p) = refl

version_known : (c : SockAddr) → ((version c == b'4') || (version c == b'6')) ≡ true
version_known (inet a p) = refl
version_known (inet6 a p) = refl
version_known (other f a p) = refl

set_in_port_back : (c : SockAddr) (p : ℕ) → p ≡ get_in_port c → set_in_port (set_in_port c 0) p ≡ c
unfolding set_in_port get_in_port
set_in_port_back (inet a q) p h = ap (inet a) h
set_in_port_back (inet6 a q) p h = ap (inet6 a) h
set_in_port_back (other f a q) p h = ap (other f a) h

module _ (host : Host) (inet_pton : InetPton) where
  abbrev pub port_of : SockAddr → ℕ
  port_of c = host.ntohs (get_in_port c)

  -- What makes a client one that can be read back: inet_pton inverts inet_ntop at its address,
  -- which is a string that fits the buffer, and htons inverts ntohs at its port.
  pub record IsListed (c : SockAddr) : Type 0 where
    pub address : inet_pton (family_of (version c)) (host.inet_ntop c) ≡ some (set_in_port c 0)
    pub fits : length (host.inet_ntop c) < 46
    pub no_nul : HasNoNul (host.inet_ntop c)
    pub port : host.htons (port_of c) ≡ get_in_port c
    pub small : port_of c < 2 ^ 16

  -- The tokens of the entry that begins at the offset `o`, and where the entry ends.
  abbrev ip_end : ℕ → SockAddr → ℕ
  ip_end o c = o + 7 + length (host.inet_ntop c)

  abbrev port_end : ℕ → SockAddr → ℕ
  port_end o c = ip_end o c + 9 + length (decimal (port_of c))

  abbrev pub entry_end : ℕ → SockAddr → ℕ
  entry_end o c = port_end o c + 9

  abbrev pub client_tokens : (o : ℕ) → SockAddr → List JsmnTok → List JsmnTok
  client_tokens o c =
      entry_tokens o (entry_end o c) (o + 2) (o + 7) (ip_end o c) (ip_end o c + 3) (ip_end o c + 9)
        (port_end o c) (port_end o c + 2) (port_end o c + 7)

  -- The parts of the entry in front of `post`.
  abbrev at_ipv : SockAddr → Bytes → Bytes
  at_ipv c post = text ",\"ipv\":" ++ (version c ∷ text "}" ++ post)

  abbrev at_port : SockAddr → Bytes → Bytes
  at_port c post = text "\",\"port\":" ++ (decimal (port_of c) ++ at_ipv c post)

  abbrev at_object : SockAddr → Bytes → Bytes
  at_object c post = text "{\"ip\":\"" ++ (host.inet_ntop c ++ at_port c post)

  client_object-at_object :
      (c : SockAddr) (post : Bytes) → client_object host c ++ post ≡ at_object c post
  client_object-at_object c post =
      ap (λ r. text "{\"ip\":\"" ++ r)
        (append_assoc (host.inet_ntop c) _ post
          ∙ ap (λ r. host.inet_ntop c ++ (text "\",\"port\":" ++ r))
              (append_assoc (decimal (port_of c)) _ post
                ∙ ap (λ r. decimal (port_of c) ++ (text ",\"ipv\":" ++ ((r ++ text "}") ++ post)))
                    (ip_version-version c)))

  node_entry-client :
      (msg : Bytes) (c : SockAddr) (s e p q : ℕ) (r u : Bytes)
      → IsListed c
      → from s msg ≡ host.inet_ntop c ++ r
      → e ≡ s + length (host.inet_ntop c)
      → from p msg ≡ decimal (port_of c) ++ u
      → q ≡ p + length (decimal (port_of c))
      → node_entry host inet_pton msg (str s e) (prim p q) (version c) ≡ some (some c)
  unfolding node_entry
  node_entry-client msg c s e p q r u x hs he hp hq =
      let d = length-decimal 4 (port_of c) (omega (arith, x.small)) in
      let a =
        copy_token_whole 46 msg (str s e) (host.inet_ntop c) r hs (toklen-of (str s e) _ he) x.fits
          x.no_nul in
      let b =
        copy_token_whole 46 msg (prim p q) (decimal (port_of c)) u hp (toklen-of (prim p q) _ hq)
          (omega (arith, d)) (decimal-HasNoNul (port_of c)) in
      let m : above (pos (port_of c)) port_max ≡ false = above-port (port_of c) x.small in
      let w : to_port (pos (port_of c)) ≡ port_of c = to_port_small (port_of c) x.small in
      rw (a, x.address, b, strtol-decimal_exact (port_of c) (omega (arith, x.small)), m, w)
        (ap (λ v. some (some v)) (set_in_port_back c (host.htons (port_of c)) x.port))

  node_checked-client :
      (msg : Bytes) (c : SockAddr) (s e p q v : ℕ) (r u w : Bytes)
      → IsListed c
      → from s msg ≡ host.inet_ntop c ++ r
      → e ≡ s + length (host.inet_ntop c)
      → from p msg ≡ decimal (port_of c) ++ u
      → q ≡ p + length (decimal (port_of c))
      → from v msg ≡ version c ∷ w
      → node_checked host inet_pton msg (str s e) (prim p q) (prim v (v + 1)) ≡ some (some c)
  unfolding node_checked
  node_checked-client msg c s e p q v r u w x hs he hp hq hv =
      let d : is_digit (char_at p msg) ≡ true =
        ap is_digit (char_at-from p msg ∙ ap (char_at 0) hp) ∙ is_digit-decimal (port_of c) u in
      let i : char_at v msg ≡ version c = char_at-from v msg ∙ ap (char_at 0) hv in
      rw (d, i, version_known c) (node_entry-client msg c s e p q r u x hs he hp hq)

  -- `parse_node` reads the client back from its entry, with `post` behind it.
  pub parse_node-client :
      (msg : Bytes) (o : ℕ) (c : SockAddr) (post : Bytes) (more : List JsmnTok)
      → IsListed c
      → from o msg ≡ client_object host c ++ post
      → (parse_node host inet_pton msg (client_tokens o c more) ≡ some (some c))
        × (from (entry_end o c) msg ≡ post)
  parse_node-client msg o c post more x h =
      let h₀ = h ∙ client_object-at_object c post in
      let ip = from_past o msg (text "{\"ip\":\"") (host.inet_ntop c ++ at_port c post) h₀ in
      let port = from_past (o + 7) msg (host.inet_ntop c) (at_port c post) ip in
      let digits =
        from_past (ip_end o c) msg (text "\",\"port\":") (decimal (port_of c) ++ at_ipv c post)
          port in
      let ipv = from_past (ip_end o c + 9) msg (decimal (port_of c)) (at_ipv c post) digits in
      let key = from_past o msg (text "{\"") _ h₀ in
      let port_key = from_past (ip_end o c) msg (text "\",\"") _ port in
      let ipv_key = from_past (port_end o c) msg (text ",\"") _ ipv in
      let v = from_past (port_end o c) msg (text ",\"ipv\":") (version c ∷ text "}" ++ post) ipv in
      let end =
        from_past (port_end o c) msg (text ",\"ipv\":" ++ (version c ∷ text "}")) post ipv in
      (
        parse_node-checked msg _ _ _ _ _ _ _ _ _ _ more _ _ _ key port_key ipv_key host inet_pton
            ∙ node_checked-client msg c _ _ _ _ _ _ _ _ x ip refl digits refl v,
        end,
      )
