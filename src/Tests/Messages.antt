-- ===== src/Tests/Messages.antt =====
-- Messages on the wire and the cache of identifiers: the theorems of common/network.c,
-- common/protocol.c and router/msgcache.c at concrete inputs.
use psnet.Prelude.{◌≡◌, refl, true, false, some, List, [], ◌∷◌, ◌++◌, map, arith, length, pos}
use psnet.Libc.{Bytes, text}
use psnet.Client.{ResponseNode, string_node}
use psnet.Client.Nodes.{wire}
use psnet.Network.{
  Sent, wrote, Arrival, byte, closed, ReadMsg, tcp_send_bytes, tcp_read_msg, read_msg_loop,
}
use psnet.Network.Send.{tcp_send_bytes_complete}
use psnet.Network.Frame.{delimiter, is_plain-IsPlain, tcp_read_msg-delimited, tcp_read_msg-missed}
use psnet.Network.Bounds.{IsSound, tcp_read_msg-IsSound}
use psnet.Protocol.{header_text, make_response_with_body, psnet_send_response}
use psnet.Protocol.Response.{psnet_send_response-wire, response-read}

abbrev info : Bytes
info = text "{\"method\":\"info\"}"

abbrev inbox : List Arrival
inbox = map byte info ++ (map byte delimiter ++ closed ∷ [])

abbrev received : ReadMsg
received = record { rv = pos 21; buf = info ++ delimiter; terminated = true; unread = closed ∷ [] }

inbox_runs : tcp_read_msg inbox 512 ≡ some received
unfolding tcp_read_msg read_msg_loop
inbox_runs = refl

tcp_read_msg-delimited_example : tcp_read_msg inbox 512 ≡ some received
tcp_read_msg-delimited_example =
    tcp_read_msg-delimited info (closed ∷ []) 512 (is_plain-IsPlain info refl) (omega arith)

tcp_read_msg-missed_example :
    tcp_read_msg (map byte info ++ (map byte (text "\r\r\n\r\n") ++ closed ∷ [])) 512
    ≡ some (record { rv = pos 0; buf = info ++ text "\r\r\n\r\n"; terminated = false; unread = [] })
tcp_read_msg-missed_example =
    tcp_read_msg-missed info [] 512 (is_plain-IsPlain info refl) (omega arith)

tcp_read_msg-IsSound_example : IsSound 512 received
unfolding tcp_read_msg read_msg_loop
tcp_read_msg-IsSound_example = tcp_read_msg-IsSound inbox 512 received refl

-- The kernel takes two bytes, then three, and so on.
abbrev answers : List Sent
answers = wrote 2 ∷ wrote 3 ∷ wrote 5 ∷ wrote 1 ∷ wrote 1 ∷ []

tcp_send_bytes_complete_example :
    tcp_send_bytes answers (text "hello") [] ≡ some (pos 5, text "hello")
tcp_send_bytes_complete_example =
    tcp_send_bytes_complete answers (text "hello") [] (omega arith) (ground arith)

abbrev body : List ResponseNode
body = string_node (text "[") ∷ string_node (text "]\r\n\r\n") ∷ []

psnet_send_response-wire_example :
    psnet_send_response body ((wrote 9 ∷ []) ∷ answers ∷ []) [] ≡ some (pos 0, text "[]\r\n\r\n")
psnet_send_response-wire_example =
    psnet_send_response-wire body ((wrote 9 ∷ []) ∷ answers ∷ []) [] (ground arith) (ground arith)

response-read_example :
    tcp_read_msg (map byte (wire (make_response_with_body [] body)) ++ closed ∷ []) 512
    ≡ some (record {
      rv = pos (length (header_text 6));
      buf = header_text 6;
      terminated = true;
      unread = map byte (text "[]\r\n\r\n") ++ closed ∷ [];
    })
response-read_example =
    response-read body (closed ∷ []) (omega arith, (omega arith, tt)) (omega arith)
