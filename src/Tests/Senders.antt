-- ===== src/Tests/Senders.antt =====
-- The requests of common/protocol.c at concrete numbers.
use psnet.Prelude.{
  ℕ, ◌≡◌, refl, arith, Option, none, some, List, [], ◌∷◌, pos, if◌then◌else◌, is_neg, ◌++◌,
}
use psnet.Libc.{Bytes, text, decimal}
use psnet.Ipv6.{SockAddr, inet}
use psnet.Client.{Host}
use psnet.Network.Udp.{printed}
use psnet.Jsmn.{JsmnTok}
use psnet.Parse.{Family}
use psnet.Protocol.Request.{
  Calls, list_text, psnet_request_discover, psnet_request_discover-connected,
}

abbrev tracker : SockAddr
tracker = inet 16777226 6666

abbrev connected : Calls
connected = record { socket = none; connect = none; rv = pos 7 }

abbrev host : Host
host = record { htons = λ p. p; ntohs = λ p. p; inet_ntop = λ a. text "10.0.0.1" }

abbrev no_address : Family → Bytes → Option SockAddr
no_address family s = none

abbrev no_tokens : Bytes → ℕ → Option (List JsmnTok × ℕ)
no_tokens msg ntok = none

psnet_request_discover-connected_example :
    psnet_request_discover host no_address no_tokens connected (tracker ∷ []) 10 5555
    ≡ (if is_neg (pos 7) then some (pos 7, tracker ∷ []) else none)
psnet_request_discover-connected_example =
    psnet_request_discover-connected host no_address no_tokens (pos 7) (tracker ∷ []) 10 5555
      (omega arith) (omega arith)

-- With five digits the NUL takes the place of the last byte of the delimiter.
list_cut :
    printed 33 (list_text 10000) ≡ some (text "{\"method\":\"list\",\"num\":10000}\r\n\r" ++ 0 ∷ [])
unfolding printed list_text decimal
list_cut = refl
