-- ===== src/Protocol.antt =====
-- common/protocol.c: the responses of a server, a header and perhaps a body.
pub mod Header
pub mod Response
pub mod Request
pub mod Exchange
use psnet.Prelude.{
  ℕ, zero, suc, ◌+◌, ◌-◌, ◌%◌, ◌^◌, Bool, true, false, Option, none, some, List, [], ◌∷◌, ◌++◌,
  ◌>>=◌, if◌then◌else◌, leb, length, take, ℤ, pos, is_neg,
}
use psnet.Libc.{Bytes, text, decimal}
use psnet.Client.{ResponseNode}
use psnet.Network.{Sent, tcp_send_bytes}

-- The loop of `psnet_send_response`. `answers` has, for each call of `tcp_send_bytes`, what the
-- kernel answers. To send beyond the data of a node is a fault.
unfoldable pub psnet_send_response :
    (head : List ResponseNode) → List (List Sent) → (out : Bytes) → Option (ℤ × Bytes)
psnet_send_response [] answers out = some (pos 0, out)
psnet_send_response (node ∷ head) [] out = none
psnet_send_response (node ∷ head) (a ∷ answers) out =
    let rest =
      λ (r : ℤ × Bytes). if is_neg r.0 then some r else psnet_send_response head answers r.1 in
    if leb node.len (length node.chars)
    then (tcp_send_bytes a (take node.len node.chars) out >>= rest)
    else none

-- `len` of `make_response_with_body`, a size_t.
unfoldable pub body_len : List ResponseNode → ℕ
body_len [] = 0
body_len (node ∷ body) = (node.len + body_len body) % 2 ^ 64

-- What snprintf is to print.
unfoldable pub header_text : ℕ → Bytes
header_text len = text "{\"status\":\"okay\",\"size\":" ++ (decimal len ++ text "}\r\n\r\n")

-- snprintf writes 99 bytes and a NUL at most, but returns the length of the whole.
unfoldable pub make_response_with_body : (head body : List ResponseNode) → List ResponseNode
make_response_with_body head body =
    let s = header_text (body_len body) in
    head ++ record { chars = take 99 s; len = length s } ∷ body

-- The `%d` of `number` is of a number that is not negative.
unfoldable pub error_text : (number : ℕ) (str : Bytes) → Bytes
error_text number str =
    text "{\"status\":\"error\",\"code\":"
    ++ (decimal number ++ (text ",\"reason\":\"" ++ (str ++ text "\"}\r\n\r\n")))

unfoldable pub psnet_send_error :
    List Sent → (out : Bytes) (number : ℕ) (str : Bytes) → Option Bytes
psnet_send_error answers out number str =
    tcp_send_bytes answers (error_text number str) out >>= λ r. some r.1

unfoldable pub psnet_send_ok : List Sent → (out : Bytes) → Option Bytes
psnet_send_ok answers out =
    tcp_send_bytes answers (text "{\"status\":\"okay\"}\r\n\r\n") out >>= λ r. some r.1

-- What `psnet_send_connect` and `psnet_send_disconnect` send.
unfoldable pub connect_text : (port : ℕ) → Bytes
connect_text port = text "{\"method\":\"connect\",\"port\":" ++ (decimal port ++ text "}")

unfoldable pub disconnect_text : (port : ℕ) → Bytes
disconnect_text port = text "{\"method\":\"disconnect\",\"port\":" ++ (decimal port ++ text "}")
