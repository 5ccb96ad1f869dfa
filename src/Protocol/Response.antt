-- ===== src/Protocol/Response.antt =====
-- A response of common/protocol.c and the peer that reads it.
use psnet.Prelude.{
  ℕ, ◌+◌, ◌^◌, ◌≤◌, ◌<◌, ◌≡◌, refl, ◌∙◌, sym, ap, true, some, List, [], ◌∷◌, ◌++◌, map, arith,
  append_assoc, append-nil, ltb, leb, Bool, length, length-append, take, take_whole, length-take,
  pos,
}
use psnet.Libc.{Bytes}
use psnet.Client.{ResponseNode}
use psnet.Client.Nodes.{IsFilled, wire}
use psnet.Network.{Sent, Arrival, byte, ReadMsg, tcp_read_msg}
use psnet.Network.Send.{IsWilling, tcp_send_bytes_complete}
use psnet.Network.Frame.{delimiter, tcp_read_msg-delimited}
use psnet.Protocol.{body_len, header_text, make_response_with_body, psnet_send_response}
use psnet.Protocol.Header.{body_of_header, header_parts, body_of_header-IsPlain, length-header}

-- The kernel takes all of each node.
abbrev pub IsServed : List ResponseNode → List (List Sent) → Type 0
IsServed [] answers = Unit
IsServed (x ∷ xs) [] = ⊥
IsServed (x ∷ xs) (a ∷ answers) =
    (length (take x.len x.chars) ≤ length a) × (IsWilling a × IsServed xs answers)

-- `psnet_send_response` sends the bytes of all nodes, in order, and returns 0, if the kernel takes
-- what it is given and each node has the bytes that it says.
pub psnet_send_response-wire :
    (head : List ResponseNode) (answers : List (List Sent)) (out : Bytes)
    → IsFilled head
    → IsServed head answers
    → psnet_send_response head answers out ≡ some (pos 0, out ++ wire head)
unfolding psnet_send_response
psnet_send_response-wire [] answers out f s = ap (λ l. some (pos 0, l)) (sym (append-nil out))
psnet_send_response-wire (x ∷ xs) [] out f s = absurd s
psnet_send_response-wire (x ∷ xs) (a ∷ answers) out f s =
    let b : leb x.len (length x.chars) ≡ true = ground (arith, f.0) in
    rw (b, tcp_send_bytes_complete a (take x.len x.chars) out s.0 s.1.0)
      (psnet_send_response-wire xs answers (out ++ take x.len x.chars) f.1 s.1.1
        ∙ ap (λ l. some (pos 0, l)) (append_assoc out (take x.len x.chars) (wire xs)))

body_len-wire :
    (body : List ResponseNode)
    → IsFilled body
    → length (wire body) < 2 ^ 64
    → body_len body ≡ length (wire body)
unfolding body_len
body_len-wire [] f h = refl
body_len-wire (x ∷ xs) f h =
    let n : length (wire (x ∷ xs)) ≡ x.len + length (wire xs) =
      length-append (take x.len x.chars) (wire xs)
      ∙ ap (λ k. k + length (wire xs)) (length-take x.len x.chars f.0) in
    let rest = body_len-wire xs f.1 (omega (arith, n, h)) in omega (arith, n, h, rest)

take_whole_header :
    (len : ℕ)
    → len < 2 ^ 64
    → take (length (header_text len)) (take 99 (header_text len)) ≡ header_text len
take_whole_header len h =
    let bound : length (header_text len) ≤ 49 = omega (
      arith,
      ap length (header_parts len),
      length-append (body_of_header len) delimiter,
      length-header len h,
    ) in
    ap (take (length (header_text len))) (take_whole 99 (header_text len) (omega (arith, bound)))
    ∙ take_whole (length (header_text len)) (header_text len) (omega arith)

pub wire-make_response :
    (body : List ResponseNode)
    → IsFilled body
    → length (wire body) < 2 ^ 64
    → wire (make_response_with_body [] body) ≡ header_text (length (wire body)) ++ wire body
unfolding make_response_with_body
wire-make_response body f h =
    let e = body_len-wire body f h in
    ap (λ n. take (length (header_text n)) (take 99 (header_text n)) ++ wire body) e
    ∙ ap (λ l. l ++ wire body) (take_whole_header (length (wire body)) h)

arriving :
    (s t u : Bytes) (rest : List Arrival)
    → map byte ((s ++ t) ++ u) ++ rest ≡ map byte s ++ (map byte t ++ (map byte u ++ rest))
arriving [] [] u rest = refl
arriving [] (c ∷ t) u rest = ap (λ l. byte c ∷ l) (arriving [] t u rest)
arriving (c ∷ s) t u rest = ap (λ l. byte c ∷ l) (arriving s t u rest)

-- The peer that reads a response with a body by `tcp_read_msg`, with the buffer of `psnet_request`,
-- gets the header, which announces the length of the body; and what it has not read then is the
-- body, whole, and what comes behind it.
pub response-read :
    (body : List ResponseNode) (rest : List Arrival)
    → IsFilled body
    → length (wire body) < 2 ^ 64
    → tcp_read_msg (map byte (wire (make_response_with_body [] body)) ++ rest) 512
      ≡ some (record {
        rv = pos (length (header_text (length (wire body))));
        buf = header_text (length (wire body));
        terminated = true;
        unread = map byte (wire body) ++ rest;
      })
response-read body rest f h =
    let n = length (wire body) in
    let head = body_of_header n in
    let bound = length-header n h in
    let count : length head + 4 ≡ length (header_text n) =
      sym (ap length (header_parts n) ∙ length-append head delimiter) in
    let short : ltb (length head + 4) 512 ≡ true = ground (arith, bound) in
    ap (λ l. tcp_read_msg (map byte l ++ rest) 512)
      (wire-make_response body f h ∙ ap (λ l. l ++ wire body) (header_parts n))
    ∙ ap (λ l. tcp_read_msg l 512) (arriving head delimiter (wire body) rest)
    ∙ tcp_read_msg-delimited head (map byte (wire body) ++ rest) 512 (body_of_header-IsPlain n)
        (omega (arith, bound))
    ∙ ap (λ b. some (read (length head + 4) (head ++ delimiter) b)) short
    ∙ ap (λ k. some (read k (head ++ delimiter) true)) count
    ∙ ap (λ l. some (read (length (header_text n)) l true)) (sym (header_parts n))
  where
    read : (k : ℕ) (l : Bytes) (b : Bool) → ReadMsg
    read k l b = record {
      rv = pos k;
      buf = l;
      terminated = b;
      unread = map byte (wire body) ++ rest;
    }
