-- ===== src/Protocol/Request.antt =====
-- common/protocol.c: the requests to another node, and the datagrams that announce a router.
--
-- Numbers are not negative here, as `%d` prints them.
use psnet.Prelude.{
  ℕ, ◌+◌, ◌≤◌, ◌<◌, ◌^◌, ◌≡◌, refl, ◌∙◌, ap, arith, Bool, Option, none, some, List, [], ◌++◌, ◌>>=◌,
  if◌then◌else◌, length, length-append, ℤ, pos, negsuc, negate, is_neg, to_int32,
}
use psnet.Libc.{Bytes, text, decimal}
use psnet.Libc.Digits.{length-decimal, length-decimal_ge}
use psnet.Ipv6.{SockAddr}
use psnet.Client.{Host, Datagram}
use psnet.Network.Udp.{UdpAnswer, udp_send, udp_sendf, printed, printed-fits, printed-over}
use psnet.Jsmn.{JsmnTok}
use psnet.Parse.{InetPton, parse_node_list}
use psnet.Protocol.{connect_text, disconnect_text}

-- What the calls of `psnet_request` answer, the error of each if it fails, and what is in its
-- variable `rv` before it is set.
pub record Calls : Type 0 where
  pub socket : Option ℕ
  pub connect : Option ℕ
  pub rv : ℤ

-- What `psnet_request` returns, what it sets `*resp` to, and what it sends.
pub record Reply : Type 0 where
  pub rv : ℤ
  pub resp : Option Bytes
  pub sent : Bytes

-- The `goto` behind the call of connect is taken in any case: no run reaches what follows it.
unfoldable pub psnet_request : Calls → (msg : Bytes) → Reply
psnet_request c msg = record {
  rv = elim c.socket [
    | some errno ↦ negate errno
    | none ↦ elim c.connect [ some errno ↦ negate errno | none ↦ c.rv ]
  ];
  resp = none;
  sent = [];
}

unfoldable pub psnet_requestf : Calls → (size : ℕ) (str : Bytes) → Option Reply
unfolding psnet_request
psnet_requestf c size str = printed size str >>= λ msg. some (psnet_request c msg)

-- The ssize_t as the int that a request returns.
abbrev pub as_int : Reply → Reply
as_int r = record { rv = to_int32 r.rv; resp = r.resp; sent = r.sent }

unfoldable pub discover_text : (num port : ℕ) → Bytes
discover_text num port =
    text "{\"method\":\"discover\",\"num\":"
    ++ (decimal num ++ (text ",\"port\":" ++ (decimal port ++ text "}\r\n\r\n")))

unfoldable pub psnet_raw_request_discover : Calls → (num port : ℕ) → Option Reply
unfolding psnet_requestf discover_text
psnet_raw_request_discover c num port =
    psnet_requestf c (40 + 40 + 5) (discover_text num port) >>= λ r. some (as_int r)

unfoldable pub list_text : (num : ℕ) → Bytes
list_text num = text "{\"method\":\"list\",\"num\":" ++ (decimal num ++ text "}\r\n\r\n")

unfoldable pub psnet_raw_request_list : Calls → (num : ℕ) → Option Reply
unfolding psnet_requestf list_text
psnet_raw_request_list c num = psnet_requestf c (28 + 5) (list_text num) >>= λ r. some (as_int r)

unfoldable pub psnet_request_info : Calls → Reply
unfolding psnet_request
psnet_request_info c = as_int (psnet_request c (text "{\"method\":\"info\"}\r\n\r\n"))

unfoldable pub psnet_request_ping : Calls → ℤ
unfolding psnet_request
psnet_request_ping c = to_int32 (psnet_request c (text "{\"method\":\"ping\"}\r\n\r\n")).rv

-- `psnet_request_discover` behind the request. If `*resp` has not been set, it reads a pointer that
-- has no value, a fault.
unfoldable pub discovered :
    (parse : Bytes → Option (Bool × List SockAddr)) (head : List SockAddr)
    → Reply
    → Option (ℤ × List SockAddr)
discovered parse head r = if is_neg r.rv then some (r.rv, head) else elim r.resp [
  | none ↦ none
  | some dst ↦ parse dst >>= λ p. some ((if p.0 then pos 0 else negsuc 0), p.1)
]

unfoldable pub psnet_send_connect :
    UdpAnswer → (ent : SockAddr) (port : ℕ) (out : List Datagram) → Option (ℤ × List Datagram)
psnet_send_connect answer ent port out = udp_sendf answer ent (32 + 5) (connect_text port) out

unfoldable pub psnet_send_disconnect :
    UdpAnswer → (ent : SockAddr) (port : ℕ) (out : List Datagram) → Option (ℤ × List Datagram)
psnet_send_disconnect answer ent port out = udp_sendf answer ent (35 + 5) (disconnect_text port) out

udp_sendf-fits :
    (answer : UdpAnswer) (ent : SockAddr) (size : ℕ) (str : Bytes) (out : List Datagram)
    → length str < size
    → udp_sendf answer ent size str out ≡ some (udp_send answer ent str out)
unfolding udp_sendf
udp_sendf-fits answer ent size str out h = rw (printed-fits size str h) refl

-- The message around a number and its digits.
pub length-around :
    (a b : Bytes) (n : ℕ)
    → length (a ++ (decimal n ++ b)) ≡ length a + (length (decimal n) + length b)
length-around a b n =
    length-append a (decimal n ++ b) ∙ ap (λ k. length a + k) (length-append (decimal n) b)

-- Whatever the port, `psnet_send_connect` and `psnet_send_disconnect` send their message as a whole,
-- in one datagram to the node that they are called with, and return what sendto does.
pub psnet_send_connect-udp_send :
    (answer : UdpAnswer) (ent : SockAddr) (port : ℕ) (out : List Datagram)
    → port < 2 ^ 16
    → (psnet_send_connect answer ent port out ≡ some (udp_send answer ent (connect_text port) out))
      × (psnet_send_disconnect answer ent port out
          ≡ some (udp_send answer ent (disconnect_text port) out))
unfolding psnet_send_connect psnet_send_disconnect connect_text disconnect_text
psnet_send_connect-udp_send answer ent port out h =
    let d = length-decimal 4 port (omega arith) in
    (
      udp_sendf-fits answer ent 37 (connect_text port) out (
          omega
            (arith, d, length-around (text "{\"method\":\"connect\",\"port\":") (text "}") port)),
      udp_sendf-fits answer ent 40 (disconnect_text port) out (
          omega (
            arith,
            d,
            length-around (text "{\"method\":\"disconnect\",\"port\":") (text "}") port,
          )),
    )

-- For 100000 nodes or more, `psnet_raw_request_list` reads beyond its buffer.
pub psnet_raw_request_list-over :
    (c : Calls) (num : ℕ) → 100000 ≤ num → psnet_raw_request_list c num ≡ none
unfolding psnet_raw_request_list psnet_requestf list_text
psnet_raw_request_list-over c num h =
    rw
      (printed-over 33 (list_text num) (
        omega (
          arith,
          length-decimal_ge 5 num h,
          length-around (text "{\"method\":\"list\",\"num\":") (text "}\r\n\r\n") num,
        )))
      refl

length-discover_text :
    (num port : ℕ) → num < 2 ^ 31 → port < 2 ^ 16 → length (discover_text num port) < 85
unfolding discover_text
length-discover_text num port h k =
    let a = length-around (text ",\"port\":") (text "}\r\n\r\n") port in
    let b =
      length-around (text "{\"method\":\"discover\",\"num\":")
        (text ",\"port\":" ++ (decimal port ++ text "}\r\n\r\n")) num in
    omega (arith, a, b, length-decimal 9 num (omega arith), length-decimal 4 port (omega arith))

module _ (host : Host) (inet_pton : InetPton)
    (jsmn_parse : Bytes → ℕ → Option (List JsmnTok × ℕ)) where
  unfoldable pub psnet_request_discover :
      Calls → (head : List SockAddr) (num port : ℕ) → Option (ℤ × List SockAddr)
  unfolding psnet_raw_request_discover discovered
  psnet_request_discover c head num port =
      psnet_raw_request_discover c num port
      >>= discovered (λ dst. parse_node_list host inet_pton jsmn_parse head dst num) head

  -- Whatever the calls behind it answer, `psnet_request_discover` gets no list.
  pub psnet_request_discover-answer :
      (c : Calls) (head : List SockAddr) (num port : ℕ)
      → num < 2 ^ 31
      → port < 2 ^ 16
      → psnet_request_discover c head num port ≡ (
          if is_neg (to_int32 (psnet_request c []).rv)
          then some (to_int32 (psnet_request c []).rv, head)
          else none)
  unfolding psnet_request_discover psnet_raw_request_discover psnet_requestf psnet_request
      discovered
  psnet_request_discover-answer c head num port h k =
      rw (printed-fits 85 (discover_text num port) (length-discover_text num port h k)) refl

  -- When the connection is made, `psnet_request_discover` does not get a list: it returns what
  -- happens to be in a variable, as an int, if that is negative, and else reads a pointer without a value.
  pub psnet_request_discover-connected :
      (rv : ℤ) (head : List SockAddr) (num port : ℕ)
      → num < 2 ^ 31
      → port < 2 ^ 16
      → psnet_request_discover (record { socket = none; connect = none; rv = rv }) head num port
        ≡ (if is_neg (to_int32 rv) then some (to_int32 rv, head) else none)
  unfolding psnet_request_discover psnet_raw_request_discover psnet_requestf psnet_request
      discovered
  psnet_request_discover-connected rv head num port h k =
      rw (printed-fits 85 (discover_text num port) (length-discover_text num port h k)) refl
