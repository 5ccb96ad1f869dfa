-- ===== src/Client/Wire.antt =====
-- The text of the client list that common/client.c makes.
use psnet.Prelude.{
  ℕ, zero, suc, ◌+◌, ◌^◌, ◌<◌, ◌≡◌, refl, ◌∙◌, sym, ap, subst, true, false, inl, inr, Option, some,
  List, [], ◌∷◌, ◌++◌, map, arith, Bool-cases, append_assoc, append-nil, leb, if◌then◌else◌, take,
}
use psnet.Libc.{Bytes, text, decimal}
use psnet.Libc.Digits.{strtol-decimal_exact, to_int32_pos}
use psnet.Ipv6.{SockAddr, get_in_port}
use psnet.DeltaList.{DeltaList}
use psnet.DeltaList.Queue.{Entry}
use psnet.DeltaList.Delete.{Represents}
use psnet.DeltaList.Whole.{visit, Leads, Represents-Leads, delta_foreach-Leads}
use psnet.Client.Nodes.{
  wire, IsFilled, IsFilled-append, IsFilled-trim_last, joined, comma_node, IsFilled-comma_node,
  wire-trim_last, wire-append,
}
use psnet.Client.{
  Host, cl_ok, ResponseNode, MakeListArg, is_ignored, trim_last, string_node, ip_version,
  client_ops, client_json, make_list, list_clients, clients_to_json,
}

-- The clients that are not the one to be left out.
abbrev pub others : Option SockAddr → List SockAddr → List SockAddr
others ign [] = []
others ign (c ∷ cs) = if is_ignored ign c then others ign cs else c ∷ others ign cs

abbrev pub values : List (Entry SockAddr) → List SockAddr
values es = map (λ e. e.value) es

module _ (host : Host) where
  -- A client as an object of JSON.
  abbrev pub client_object : SockAddr → Bytes
  client_object client =
      text "{\"ip\":\""
      ++ (host.inet_ntop client
          ++ (text "\",\"port\":"
              ++ (decimal (host.ntohs (get_in_port client))
                  ++ (text ",\"ipv\":" ++ (ip_version client ++ text "}")))))

  pub client_json-client_object :
      (client : SockAddr) → client_json host client ≡ client_object client ++ text ","
  unfolding client_json
  client_json-client_object c = sym (
      ap (λ r. text "{\"ip\":\"" ++ r)
        (append_assoc (host.inet_ntop c) _ (text ",")
          ∙ ap (λ r. host.inet_ntop c ++ (text "\",\"port\":" ++ r))
              (append_assoc (decimal (host.ntohs (get_in_port c))) _ (text ",")
                ∙ ap (λ r. decimal (host.ntohs (get_in_port c)) ++ (text ",\"ipv\":" ++ r))
                    (append_assoc (ip_version c) (text "}") (text ",")))))

  make_list-full :
      (c : SockAddr) (arg : MakeListArg)
      → leb arg.n arg.i ≡ true
      → make_list host c arg ≡ (arg, true)
  unfolding make_list
  make_list-full c arg e = rw e refl

  make_list-ignored :
      (c : SockAddr) (arg : MakeListArg)
      → leb arg.n arg.i ≡ false
      → is_ignored arg.ignore c ≡ true
      → make_list host c arg ≡ (arg, false)
  unfolding make_list
  make_list-ignored c arg e g = rw (e, g) refl

  make_list-listed :
      (c : SockAddr) (l : List ResponseNode) (ign : Option SockAddr) (i n : ℕ)
      → leb n i ≡ false
      → is_ignored ign c ≡ false
      → make_list host c (record { list = l; ignore = ign; i = i; n = n }) ≡ (
        record { list = l ++ comma_node (client_object c) ∷ []; ignore = ign; i = i + 1; n = n },
        false,
      )
  unfolding make_list comma_node
  make_list-listed c l ign i n e g = rw (e, g, client_json-client_object c) refl

  -- `make_list` collects the first clients that are not to be left out.
  visit-make_list :
      (cs : List SockAddr) (l : List ResponseNode) (ign : Option SockAddr) (i n k : ℕ)
      → n ≡ i + k
      → (visit (make_list host) cs (record { list = l; ignore = ign; i = i; n = n })).list
        ≡ l ++ map comma_node (map client_object (take k (others ign cs)))
  visit-make_list [] l ign i n zero h = sym (append-nil l)
  visit-make_list [] l ign i n (suc k) h = sym (append-nil l)
  visit-make_list (c ∷ cs) l ign i n zero h =
      let full : leb n i ≡ true = ground arith in
      rw (make_list-full c (record { list = l; ignore = ign; i = i; n = n }) full)
        (sym (append-nil l))
  visit-make_list (c ∷ cs) l ign i n (suc k) h =
      let room : leb n i ≡ false = ground arith in
      elim (Bool-cases (is_ignored ign c)) [
        | inl skip ↦
            rw
              (
                make_list-ignored c (record { list = l; ignore = ign; i = i; n = n }) room skip,
                skip,
              )
              (visit-make_list cs l ign i n (suc k) h)
        | inr keep ↦
            rw (make_list-listed c l ign i n room keep, keep)
              (visit-make_list cs (l ++ comma_node (client_object c) ∷ []) ign (i + 1) n k
                  (omega arith)
                ∙ append_assoc l (comma_node (client_object c) ∷ []) _)
      ]

  -- The list of clients, as it is sent: a JSON array of the first `num` clients that are not `ign`.
  list_clients-wire :
      (t : DeltaList SockAddr) (es : List (Entry SockAddr)) (ign : Option SockAddr) (num : ℕ)
      → Leads t es
      → (l : List ResponseNode) × (list_clients host t [] ign num ≡ some l)
        × (wire l
            ≡ text "["
              ++ (joined (map client_object (take num (others ign (values es))))
                  ++ text "]\r\n\r\n"))
        × IsFilled l
  unfolding list_clients
  list_clients-wire t es ign num x =
      let start : MakeListArg = record {
        list = string_node (text "[") ∷ [];
        ignore = ign;
        i = 0;
        n = num;
      } in
      let objects = map client_object (take num (others ign (values es))) in
      let all =
        visit-make_list (values es) (string_node (text "[") ∷ []) ign 0 num num (omega arith) in
      (
        trim_last (visit (make_list host) (values es) start).list
            ++ string_node (text "]\r\n\r\n") ∷ [],
        rw (delta_foreach-Leads t es (make_list host) start x) refl,
        ap (λ l. wire (trim_last l ++ string_node (text "]\r\n\r\n") ∷ [])) all
            ∙ wire-append (trim_last (string_node (text "[") ∷ map comma_node objects)) _
            ∙ ap (λ r. r ++ text "]\r\n\r\n") (wire-trim_last (string_node (text "[")) objects)
            ∙ append_assoc (text "[") (joined objects) _,
        subst (λ l. IsFilled (trim_last l ++ string_node (text "]\r\n\r\n") ∷ [])) (sym all)
            (IsFilled-append (trim_last (string_node (text "[") ∷ map comma_node objects)) _
              (IsFilled-trim_last (string_node (text "[") ∷ map comma_node objects)
                (omega arith, IsFilled-comma_node objects))
              (omega arith, tt)),
      )

  -- The JSON array of some clients, and the end of the message.
  abbrev pub client_list : List SockAddr → Bytes
  client_list cs = text "[" ++ (joined (map client_object cs) ++ text "]\r\n\r\n")

  -- `clients_to_json` when the list of the table leads through the entries, whether or not all is in order.
  pub clients_to_json-Leads :
      (t : DeltaList SockAddr) (es : List (Entry SockAddr)) (ign : Option SockAddr) (num : ℕ)
      → Leads t es
      → num < 2 ^ 31
      → (l : List ResponseNode) × (clients_to_json host t [] ign (decimal num) ≡ some (cl_ok, l))
        × (wire l ≡ client_list (take num (others ign (values es))))
        × IsFilled l
  unfolding clients_to_json
  clients_to_json-Leads t es ign num x h =
      let (l, e, w, f) = list_clients-wire t es ign num x in
      (
        l,
        rw
            (
              clients_to_json,
              strtol-decimal_exact num (omega arith),
              to_int32_pos num h,
              strtol-decimal_exact num (omega arith),
              e,
            )
            refl,
        w,
        f,
      )

  -- `clients_to_json` with a decimal number that an int holds: a JSON array of so many clients at
  -- most, the oldest first and none of them `ign`, and the end of the message; each node of the
  -- response has the bytes that it says.
  pub clients_to_json-wire :
      (t : DeltaList SockAddr) (es : List (Entry SockAddr)) (ign : Option SockAddr) (num : ℕ)
      → Represents client_ops t es
      → num < 2 ^ 31
      → (l : List ResponseNode) × (clients_to_json host t [] ign (decimal num) ≡ some (cl_ok, l))
        × (wire l ≡ client_list (take num (others ign (values es))))
        × IsFilled l
  clients_to_json-wire t es ign num x h =
      clients_to_json-Leads t es ign num (Represents-Leads client_ops t es x) h
