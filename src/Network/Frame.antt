-- ===== src/Network/Frame.antt =====
-- The framing of messages: `tcp_read_msg` of common/network.c reads up to "\r\n\r\n".
use psnet.Prelude.{
  ℕ, suc, ◌+◌, ◌≤◌, ◌<◌, ◌≡◌, ◌≢◌, refl, ◌∙◌, sym, ap, inl, inr, true, false, some, List, [], ◌∷◌,
  ◌++◌, map, arith, Bool-cases, append_assoc, append-nil, ltb, ◌==◌, Bool, if◌then◌else◌, length,
  pos,
}
use psnet.Libc.{Bytes, text}
use psnet.Network.{
  Arrival, byte, closed, recv_failed, next_pos, reads_on, read_done, read_msg_loop, tcp_read_msg,
}

abbrev pub delimiter : Bytes
delimiter = text "\r\n\r\n"

-- No carriage return occurs.
abbrev pub IsPlain : Bytes → Type 0
IsPlain [] = Unit
IsPlain (c ∷ s) = (c ≢ 13) × IsPlain s

-- Whether a carriage return is missing, computed.
abbrev pub is_plain : Bytes → Bool
is_plain [] = true
is_plain (c ∷ s) = if c == 13 then false else is_plain s

pub is_plain-IsPlain : (s : Bytes) → is_plain s ≡ true → IsPlain s
is_plain-IsPlain [] h = tt
is_plain-IsPlain (c ∷ s) h = elim (Bool-cases (c == 13)) [
  | inl y ↦ absurd (let f : false ≡ true = rw y at h in cc)
  | inr n ↦ (ground arith, is_plain-IsPlain s (rw n at h))
]

-- One turn of the loop that reads a byte.
pub read_msg_loop-byte :
    (c : ℕ) (rest : List Arrival) (len i matched : ℕ) (buf : Bytes)
    → i < len
    → matched < 4
    → read_msg_loop (byte c ∷ rest) len i matched buf
      ≡ read_msg_loop rest len (i + 1) (next_pos matched c) (buf ++ c ∷ [])
unfolding read_msg_loop
read_msg_loop-byte c rest len i matched buf h k =
    let on : reads_on len i matched ≡ true = ground arith in rw on refl

pub read_msg_loop-done :
    (arrivals : List Arrival) (len i matched : ℕ) (buf : Bytes)
    → reads_on len i matched ≡ false
    → read_msg_loop arrivals len i matched buf ≡ some (read_done arrivals len i buf)
unfolding read_msg_loop
read_msg_loop-done [] len i matched buf h = rw h refl
read_msg_loop-done (byte c ∷ rest) len i matched buf h = rw h refl
read_msg_loop-done (closed ∷ rest) len i matched buf h = rw h refl
read_msg_loop-done (recv_failed e ∷ rest) len i matched buf h = rw h refl

-- Bytes of a message match nothing.
read_msg_loop-plain :
    (msg : Bytes) (rest : List Arrival) (len i : ℕ) (buf : Bytes)
    → IsPlain msg
    → i + length msg < len
    → read_msg_loop (map byte msg ++ rest) len i 0 buf
      ≡ read_msg_loop rest len (i + length msg) 0 (buf ++ msg)
read_msg_loop-plain [] rest len i buf p h =
    let e : i ≡ i + 0 = omega arith in
    ap (λ n. read_msg_loop rest len n 0 buf) e
    ∙ ap (read_msg_loop rest len (i + 0) 0) (sym (append-nil buf))
read_msg_loop-plain (c ∷ msg) rest len i buf p h =
    let missed : next_pos 0 c ≡ 0 = ground (arith, p.0) in
    let e : i + 1 + length msg ≡ i + suc (length msg) = omega arith in
    read_msg_loop-byte c (map byte msg ++ rest) len i 0 buf (omega arith) (omega arith)
    ∙ ap (λ m. read_msg_loop (map byte msg ++ rest) len (i + 1) m (buf ++ c ∷ [])) missed
    ∙ read_msg_loop-plain msg rest len (i + 1) (buf ++ c ∷ []) p.1 (omega arith)
    ∙ ap (λ n. read_msg_loop rest len n 0 ((buf ++ c ∷ []) ++ msg)) e
    ∙ ap (read_msg_loop rest len (i + suc (length msg)) 0) (append_assoc buf (c ∷ []) msg)

-- The four bytes of the delimiter end the message.
read_msg_loop-delimiter :
    (rest : List Arrival) (len i : ℕ) (buf : Bytes)
    → i + 4 ≤ len
    → read_msg_loop (map byte delimiter ++ rest) len i 0 buf
      ≡ some (read_done rest len (i + 4) (buf ++ delimiter))
read_msg_loop-delimiter rest len i buf h =
    let e : i + 1 + 1 + 1 + 1 ≡ i + 4 = omega arith in
    let b = ((buf ++ 13 ∷ []) ++ 10 ∷ []) ++ 13 ∷ [] in
    let full : reads_on len (i + 1 + 1 + 1 + 1) 4 ≡ false = ground arith in
    read_msg_loop-byte 13 (byte 10 ∷ byte 13 ∷ byte 10 ∷ rest) len i 0 buf (omega arith)
      (omega arith)
    ∙ read_msg_loop-byte 10 (byte 13 ∷ byte 10 ∷ rest) len (i + 1) 1 (buf ++ 13 ∷ []) (omega arith)
        (omega arith)
    ∙ read_msg_loop-byte 13 (byte 10 ∷ rest) len (i + 1 + 1) 2 ((buf ++ 13 ∷ []) ++ 10 ∷ [])
        (omega arith) (omega arith)
    ∙ read_msg_loop-byte 10 rest len (i + 1 + 1 + 1) 3 b (omega arith) (omega arith)
    ∙ read_msg_loop-done rest len (i + 1 + 1 + 1 + 1) 4 (b ++ 10 ∷ []) full
    ∙ ap (λ n. some (read_done rest len n (b ++ 10 ∷ []))) e
    ∙ ap (λ l. some (read_done rest len (i + 4) l)) (four buf 13 10 13 10)
  where
    four :
        (s : Bytes) (p q r t : ℕ)
        → (((s ++ p ∷ []) ++ q ∷ []) ++ r ∷ []) ++ t ∷ [] ≡ s ++ p ∷ q ∷ r ∷ t ∷ []
    four [] p q r t = refl
    four (x ∷ s) p q r t = ap (λ l. x ∷ l) (four s p q r t)

-- `tcp_read_msg` reads a message without carriage returns, up to and with its delimiter, if it
-- fits the buffer, writes a NUL where there is room for it, and leaves what comes behind unread.
pub tcp_read_msg-delimited :
    (msg : Bytes) (rest : List Arrival) (len : ℕ)
    → IsPlain msg
    → length msg + 4 ≤ len
    → tcp_read_msg (map byte msg ++ (map byte delimiter ++ rest)) len
      ≡ some (record {
        rv = pos (length msg + 4);
        buf = msg ++ delimiter;
        terminated = ltb (length msg + 4) len;
        unread = rest;
      })
unfolding tcp_read_msg
tcp_read_msg-delimited msg rest len p h =
    let e : 0 + length msg ≡ length msg = omega arith in
    read_msg_loop-plain msg (map byte delimiter ++ rest) len 0 [] p (omega arith)
    ∙ ap (λ n. read_msg_loop (map byte delimiter ++ rest) len n 0 msg) e
    ∙ read_msg_loop-delimiter rest len (length msg) msg h

pub read_msg_loop-closed :
    (rest : List Arrival) (len i matched : ℕ) (buf : Bytes)
    → i < len
    → matched < 4
    → read_msg_loop (closed ∷ rest) len i matched buf
      ≡ some (record { rv = pos 0; buf = buf; terminated = false; unread = rest })
unfolding read_msg_loop
read_msg_loop-closed rest len i matched buf h k =
    let on : reads_on len i matched ≡ true = ground arith in rw on refl

-- Behind one more carriage return the delimiter is not seen: the message is not returned, and the
-- end of the stream then reads as if there had been no message.
pub tcp_read_msg-missed :
    (msg : Bytes) (rest : List Arrival) (len : ℕ)
    → IsPlain msg
    → length msg + 5 < len
    → tcp_read_msg (map byte msg ++ (map byte (text "\r\r\n\r\n") ++ closed ∷ rest)) len
      ≡ some
          (record { rv = pos 0; buf = msg ++ text "\r\r\n\r\n"; terminated = false; unread = rest })
unfolding tcp_read_msg
tcp_read_msg-missed msg rest len p h =
    let n = 0 + length msg in
    let b₁ = msg ++ 13 ∷ [] in
    let b₂ = b₁ ++ 13 ∷ [] in
    let b₃ = b₂ ++ 10 ∷ [] in
    let b₄ = b₃ ++ 13 ∷ [] in
    read_msg_loop-plain msg (map byte (text "\r\r\n\r\n") ++ closed ∷ rest) len 0 [] p (omega arith)
    ∙ read_msg_loop-byte 13 (byte 13 ∷ byte 10 ∷ byte 13 ∷ byte 10 ∷ closed ∷ rest) len n 0 msg
        (omega arith) (omega arith)
    ∙ read_msg_loop-byte 13 (byte 10 ∷ byte 13 ∷ byte 10 ∷ closed ∷ rest) len (n + 1) 1 b₁
        (omega arith) (omega arith)
    ∙ read_msg_loop-byte 10 (byte 13 ∷ byte 10 ∷ closed ∷ rest) len (n + 1 + 1) 0 b₂ (omega arith)
        (omega arith)
    ∙ read_msg_loop-byte 13 (byte 10 ∷ closed ∷ rest) len (n + 1 + 1 + 1) 0 b₃ (omega arith)
        (omega arith)
    ∙ read_msg_loop-byte 10 (closed ∷ rest) len (n + 1 + 1 + 1 + 1) 1 b₄ (omega arith) (omega arith)
    ∙ read_msg_loop-closed rest len (n + 1 + 1 + 1 + 1 + 1) 2 (b₄ ++ 10 ∷ []) (omega arith)
        (omega arith)
    ∙ ap (λ l. some (record { rv = pos 0; buf = l; terminated = false; unread = rest }))
        (five msg 13 13 10 13 10)
  where
    five :
        (s : Bytes) (p q r t u : ℕ)
        → ((((s ++ p ∷ []) ++ q ∷ []) ++ r ∷ []) ++ t ∷ []) ++ u ∷ [] ≡ s ++ p ∷ q ∷ r ∷ t ∷ u ∷ []
    five [] p q r t u = refl
    five (x ∷ s) p q r t u = ap (λ l. x ∷ l) (five s p q r t u)
