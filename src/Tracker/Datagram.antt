-- ===== src/Tracker/Datagram.antt =====
-- What a datagram asks of the tracker, read in its document, and that `handle_message` of
-- tracker/service.c does what is asked.
use psnet.Prelude.{
  ℕ, ◌≡◌, refl, ◌∙◌, ap, Bool, true, false, Option, none, some, List, ◌>>=◌, if◌then◌else◌,
}
use psnet.Libc.{Bytes, text, c_string}
use psnet.Ipv6.{SockAddr}
use psnet.DeltaList.{DeltaList, Rc, success}
use psnet.DeltaList.Operations.{delta_update, delta_remove}
use psnet.Client.{Host, make_client, add_client, remove_client, client_ops}
use psnet.Jsmn.{JsmnTok, jsmn_get_value, jsmn_tokeq, from, tok_at}
use psnet.Jsmn.Tree.{Value, primitive, string, array, object, Values, root, tokens}
use psnet.Jsmn.Lookup.{field, index, IsPlace, jsmn_get_value-field, tok_at-root}
use psnet.Parse.{parse_message, parsed_message}
use psnet.Tracker.{set_nul, process_connect, process_disconnect, dispatch_message, handle_message}

-- What the parser makes of a message: a document, with the tokens behind its own and `toknext`, or
-- an error.
abbrev pub Document : Type 0
Document = Option (Value × List JsmnTok × ℕ)

abbrev pub parsed : Document → Option (List JsmnTok × ℕ)
parsed none = none
parsed (some d) = some (tokens d.0 d.1, d.2)

pub data Request : Type 0 where
  ignored : Request
  announces : SockAddr → Request
  withdraws : SockAddr → Request

abbrev announced : Option SockAddr → Request
announced none = ignored
announced (some c) = announces c

abbrev withdrawn : Option SockAddr → Request
withdrawn none = ignored
withdrawn (some c) = withdraws c

-- What is done for a request.
abbrev pub carry : DeltaList SockAddr → Request → Option (DeltaList SockAddr)
carry t ignored = some t
carry t (announces c) = delta_update client_ops t c >>= λ r. some r.1
carry t (withdraws c) = delta_remove client_ops t c >>= λ r. some r.1

abbrev succeed : ℕ × DeltaList SockAddr → Option (Rc × DeltaList SockAddr)
succeed r = some (success, r.1)

forget_code :
    (o : Option (ℕ × DeltaList SockAddr))
    → ((o >>= succeed) >>= λ r. some r.1) ≡ (o >>= λ r. some r.1)
forget_code none = refl
forget_code (some r) = refl

module _ (host : Host) (addr : SockAddr) (msg : Bytes) where
  -- The sender at the port of the message.
  abbrev pub sender_at : Option (ℕ × Value) → Option SockAddr
  sender_at none = none
  sender_at (some p) =
      make_client host addr (c_string (from (root p.1).start (set_nul (root p.1).end msg)))

  abbrev sender : Values → Option SockAddr
  sender vs = sender_at (field msg (text "port") 1 vs)

  abbrev by_method : Option (ℕ × Value) → Values → Request
  by_method none vs = ignored
  by_method (some m) vs =
      if jsmn_tokeq msg (root m.1) (text "connect")
      then announced (sender vs)
      else if jsmn_tokeq msg (root m.1) (text "disconnect")
      then withdrawn (sender vs)
      else ignored

  -- What a message asks for: a document that is an object, with a method and a port that is good.
  unfoldable pub request : Document → Request
  request (some (object s e vs, more, n)) = by_method (field msg (text "method") 1 vs) vs
  request _ = ignored

  add_client-carry :
      (t : DeltaList SockAddr) (port : Bytes)
      → (add_client host t addr port >>= λ r. some r.1)
        ≡ carry t (announced (make_client host addr port))
  unfolding add_client
  add_client-carry t port = go (make_client host addr port) refl
    where
      go :
          (o : Option SockAddr)
          → make_client host addr port ≡ o
          → (add_client host t addr port >>= λ r. some r.1) ≡ carry t (announced o)
      go none e = rw (add_client, e) refl
      go (some c) e = rw (add_client, e) (forget_code (delta_update client_ops t c))

  remove_client-carry :
      (t : DeltaList SockAddr) (port : Bytes)
      → (remove_client host t addr port >>= λ r. some r.1)
        ≡ carry t (withdrawn (make_client host addr port))
  unfolding remove_client
  remove_client-carry t port = go (make_client host addr port) refl
    where
      go :
          (o : Option SockAddr)
          → make_client host addr port ≡ o
          → (remove_client host t addr port >>= λ r. some r.1) ≡ carry t (withdrawn o)
      go none e = rw (remove_client, e) refl
      go (some c) e = rw (remove_client, e) refl

  module _ (t : DeltaList SockAddr) (l : List JsmnTok) where
    process_connect-carry :
        (p : Option (ℕ × Value))
        → jsmn_get_value msg l (text "port") ≡ some (index p)
        → IsPlace l p
        → process_connect host t addr msg l ≡ carry t (announced (sender_at p))
    unfolding process_connect
    process_connect-carry none h i = rw h refl
    process_connect-carry (some (i, v)) h (more, e) =
        rw (h, tok_at-root i v l more e) (add_client-carry t _)

    process_disconnect-carry :
        (p : Option (ℕ × Value))
        → jsmn_get_value msg l (text "port") ≡ some (index p)
        → IsPlace l p
        → process_disconnect host t addr msg l ≡ carry t (withdrawn (sender_at p))
    unfolding process_disconnect
    process_disconnect-carry none h i = rw h refl
    process_disconnect-carry (some (i, v)) h (more, e) =
        rw (h, tok_at-root i v l more e) (remove_client-carry t _)

    -- The branches on the method.
    abbrev branches :
        (connect disconnect : Bool) (on_connect on_disconnect : Option (DeltaList SockAddr))
        → Option (DeltaList SockAddr)
    branches c d x y = if c then x else if d then y else some t

    branches-carry :
        (c d : Bool) (x y : Option (DeltaList SockAddr)) (p q : Request)
        → x ≡ carry t p
        → y ≡ carry t q
        → branches c d x y ≡ carry t (if c then p else if d then q else ignored)
    branches-carry true d x y p q h k = h
    branches-carry false true x y p q h k = k
    branches-carry false false x y p q h k = refl

    by_method-carry :
        (vs : Values) (n : ℕ) (m : Option (ℕ × Value))
        → IsPlace l m
        → jsmn_get_value msg l (text "port") ≡ some (index (field msg (text "port") 1 vs))
        → IsPlace l (field msg (text "port") 1 vs)
        → dispatch_message host t addr msg
            (elim (index m) [ none ↦ none | some i ↦ some (l, n, i) ])
          ≡ carry t (by_method m vs)
    unfolding dispatch_message
    by_method-carry vs n none i h k = refl
    by_method-carry vs n (some (i, v)) (more, e) h k = rw (tok_at-root i v l more e) (
        branches-carry (jsmn_tokeq msg (root v) (text "connect"))
          (jsmn_tokeq msg (root v) (text "disconnect")) _ _ _ _
          (process_connect-carry (field msg (text "port") 1 vs) h k)
          (process_disconnect-carry (field msg (text "port") 1 vs) h k))

  parsed_message-carry :
      (t : DeltaList SockAddr) (d : Document)
      → (parsed_message msg (parsed d) >>= dispatch_message host t addr msg) ≡ carry t (request d)
  unfolding parsed_message dispatch_message tok_at tokens request
  parsed_message-carry t none = refl
  parsed_message-carry t (some (primitive s e, more, n)) = refl
  parsed_message-carry t (some (string s e, more, n)) = refl
  parsed_message-carry t (some (array s e vs, more, n)) = refl
  parsed_message-carry t (some (object s e vs, more, n)) =
      let l = tokens (object s e vs) more in
      let (method, at_method) = jsmn_get_value-field msg (text "method") s e vs more in
      let (port, at_port) = jsmn_get_value-field msg (text "port") s e vs more in
      rw method (by_method-carry t l vs n (field msg (text "method") 1 vs) at_method port at_port)

module _ (host : Host) (jsmn_parse : Bytes → ℕ → Option (List JsmnTok × ℕ)) where
  -- On a message that the parser rejects or makes the tokens of a document, `handle_message` does
  -- what the document asks for, and nothing else.
  pub handle_message-request :
      (t : DeltaList SockAddr) (addr : SockAddr) (msg : Bytes) (d : Document)
      → jsmn_parse msg 256 ≡ parsed d
      → handle_message host jsmn_parse t addr msg ≡ carry t (request host addr msg d)
  unfolding handle_message parse_message
  handle_message-request t addr msg d h =
      ap (λ o. parsed_message msg o >>= dispatch_message host t addr msg) h
      ∙ parsed_message-carry host addr msg t d
