-- ===== src/Protocol/Exchange.antt =====
-- common/protocol.c: what stands behind the `goto` of psnet_request that is always taken, lines 51 to
-- 77. No run of the program reaches it; it is what the function is to do with the connection.
use psnet.Prelude.{
  ℕ, ◌≤◌, ◌<◌, ◌≡◌, refl, arith, Bool, true, false, not, ◌||◌, Option, none, some, List, [], ◌++◌,
  ◌>>=◌, ◌==◌, if◌then◌else◌, length, map, ℤ, pos, negsuc, negate, is_neg, above,
}
use psnet.Libc.{Bytes, text, decimal, c_string}
use psnet.Libc.Strings.{
  HasNoNul, HasNoNul-append, decimal-HasNoNul, has_no_nul-HasNoNul, c_string_whole,
}
use psnet.Client.{ResponseNode}
use psnet.Client.Nodes.{IsFilled, wire}
use psnet.Network.{
  Sent, Arrival, byte, Chunk, ReadMsg, tcp_send_bytes, tcp_read_msg, tcp_read_bytes,
}
use psnet.Network.Send.{IsWilling, tcp_send_bytes_complete}
use psnet.Network.Read.{Pieces, tcp_read_bytes-Pieces}
use psnet.Jsmn.{JsmnTok}
use psnet.Parse.{PsnetStatus, parse_header}
use psnet.Parse.Header.{header_tokens, parse_header-small}
use psnet.Protocol.{header_text, make_response_with_body}
use psnet.Libc.Digits.{length-decimal}
use psnet.Protocol.Request.{Reply, length-around}
use psnet.Protocol.Response.{response-read}

-- EBADMSG.
abbrev ebadmsg : ℕ
ebadmsg = 74

abbrev is_one_off : ℤ → Bool
is_one_off (pos n) = false
is_one_off (negsuc n) = n == 0

abbrev is_full : ℤ → Bool
is_full (pos n) = n == 512
is_full (negsuc n) = false

abbrev failed : ℤ → Bytes → Option Reply
failed rv sent = some (record { rv = rv; resp = none; sent = sent })

-- The body. tcp_read_bytes returns the negated errno, of which only -1 is tested; else `*resp` is
-- written to at that offset, which is a fault.
unfoldable pub exchange_body : List Chunk → (size : ℕ) (sent : Bytes) → Option Reply
exchange_body chunks size sent = tcp_read_bytes chunks size >>= λ b.
    if is_one_off b.0
    then failed b.0 sent
    else if is_neg b.0
    then none
    else some (record { rv = b.0; resp = some b.1; sent = sent })

-- The end, with what `parse_header` makes of the header.
unfoldable pub exchange_sized :
    List Chunk → (wanted : Bool) (sent : Bytes) → Option (PsnetStatus × ℕ) → Option Reply
unfolding exchange_body
exchange_sized chunks wanted sent none = failed (negate ebadmsg) sent
exchange_sized chunks wanted sent (some (status, size)) =
    if (size == 0) || not wanted then failed (pos 0) sent else exchange_body chunks size sent

module _ (jsmn_parse : Bytes → ℕ → Option (List JsmnTok × ℕ)) where
  unfoldable pub exchange_read :
      (deliver : List Arrival → List Chunk) (wanted : Bool) (sent : Bytes) → ReadMsg → Option Reply
  unfolding exchange_sized
  exchange_read deliver wanted sent h =
      if not (above h.rv 0)
      then failed h.rv sent
      else if is_full h.rv
      then failed (negate ebadmsg) sent
      else (parse_header jsmn_parse (c_string h.buf)
          >>= exchange_sized (deliver h.unread) wanted sent)

  -- `answers` has what send answers, `arrivals` what comes in on the socket; `deliver` is how the
  -- kernel hands out what has not been read when the body is; `wanted` is whether `resp` is not NULL.
  unfoldable pub exchange :
      List Sent
      → List Arrival
      → (deliver : List Arrival → List Chunk) (wanted : Bool) (msg : Bytes) → Option Reply
  unfolding exchange_read
  exchange answers arrivals deliver wanted msg = tcp_send_bytes answers msg [] >>= λ r.
      if is_neg r.0
      then failed r.0 r.1
      else (tcp_read_msg arrivals 512 >>= exchange_read deliver wanted r.1)

  header_text-HasNoNul : (n : ℕ) → HasNoNul (header_text n)
  unfolding header_text
  header_text-HasNoNul n =
      HasNoNul-append (text "{\"status\":\"okay\",\"size\":") (decimal n ++ text "}\r\n\r\n")
        (has_no_nul-HasNoNul (text "{\"status\":\"okay\",\"size\":") refl)
        (HasNoNul-append (decimal n) (text "}\r\n\r\n") (decimal-HasNoNul n)
          (has_no_nul-HasNoNul (text "}\r\n\r\n") refl))

  header_text-short : (n : ℕ) → n < 10000 → length (header_text n) < 50
  unfolding header_text
  header_text-short n h = omega (
    arith,
    length-decimal 3 n (omega arith),
    length-around (text "{\"status\":\"okay\",\"size\":") (text "}\r\n\r\n") n,
  )

  header_text-long : (n : ℕ) → 0 < length (header_text n)
  unfolding header_text
  header_text-long n = omega arith

  is_full-short : (k : ℕ) → k < 50 → is_full (pos k) ≡ false
  is_full-short k h = ground arith

  above-long : (k : ℕ) → 0 < k → above (pos k) 0 ≡ true
  above-long k h = ground arith

  exchange_body-Pieces :
      (chunks : List Chunk) (s sent : Bytes)
      → Pieces chunks s
      → exchange_body chunks (length s) sent
        ≡ some (record { rv = pos (length s); resp = some s; sent = sent })
  unfolding exchange_body
  exchange_body-Pieces chunks s sent h = rw (tcp_read_bytes-Pieces chunks s h) refl

  exchange_read-header :
      (deliver : List Arrival → List Chunk) (s sent : Bytes) (unread : List Arrival)
      → 0 < length s
      → length s < 10000
      → Pieces (deliver unread) s
      → jsmn_parse (header_text (length s)) 256 ≡ some (header_tokens (length s), 5)
      → exchange_read deliver true sent (record {
        rv = pos (length (header_text (length s)));
        buf = header_text (length s);
        terminated = true;
        unread = unread;
      })
        ≡ some (record { rv = pos (length s); resp = some s; sent = sent })
  unfolding exchange_read exchange_sized
  exchange_read-header deliver s sent unread p h q e =
      let n = length s in
      let a = above-long (length (header_text n)) (header_text-long n) in
      let f = is_full-short (length (header_text n)) (header_text-short n h) in
      let z : (n == 0) ≡ false = ground arith in
      rw
        (
          a,
          f,
          c_string_whole (header_text n) (header_text-HasNoNul n),
          parse_header-small jsmn_parse n h e,
          z,
        )
        (exchange_body-Pieces (deliver unread) s sent q)

  -- What stands behind the `goto` of psnet_request sends the message as a whole and gets the body of
  -- the response that `make_response_with_body` makes: of a body that is not empty and has fewer
  -- than 10000 bytes, in filled nodes. The kernel takes what it is given and delivers what tcp_read_msg
  -- has left unread in pieces, of which the first make up the body, and the parser gets the tokens of the header right.
  pub exchange-response :
      (answers : List Sent) (body : List ResponseNode) (rest : List Arrival)
      (deliver : List Arrival → List Chunk) (msg : Bytes)
      → length msg ≤ length answers
      → IsWilling answers
      → IsFilled body
      → 0 < length (wire body)
      → length (wire body) < 10000
      → Pieces (deliver (map byte (wire body) ++ rest)) (wire body)
      → jsmn_parse (header_text (length (wire body))) 256
        ≡ some (header_tokens (length (wire body)), 5)
      → exchange answers
          (map byte (wire (make_response_with_body [] body)) ++ rest)
          deliver
          true
          msg
        ≡ some (record { rv = pos (length (wire body)); resp = some (wire body); sent = msg })
  unfolding exchange
  exchange-response answers body rest deliver msg enough willing filled p h q e =
      rw
        (
          tcp_send_bytes_complete answers msg [] enough willing,
          response-read body rest filled (omega (arith, h)),
        )
        (exchange_read-header deliver (wire body) msg (map byte (wire body) ++ rest) p h q e)
