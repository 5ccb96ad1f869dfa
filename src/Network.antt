-- ===== src/Network.antt =====
-- common/network.c: sending and reading over a socket.
--
-- What the kernel answers is data: of a call of send, how many bytes it takes at most, or its error;
-- of recv, the bytes that arrive, the end of the stream or an error. A list of answers that has run
-- out is a peer that is silent for ever: the call does not return (`none`).
pub mod Send
pub mod Frame
pub mod Bounds
pub mod Udp
pub mod Read
use psnet.Prelude.{
  ℕ, zero, suc, ◌+◌, ◌-◌, Bool, true, false, Option, none, some, List, [], ◌∷◌, ◌++◌, ltb, leb,
  ◌==◌, if◌then◌else◌, length, take, ℤ, pos, negate,
}
use psnet.Libc.{Bytes}
use psnet.Ipv6.{SockAddr, get_sockaddr_size}

-- What one call of send does.
pub data Sent : Type 0 where
  wrote : (capacity : ℕ) → Sent
  send_failed : (errno : ℕ) → Sent

-- What one call of recv for one byte does.
pub data Arrival : Type 0 where
  byte : (c : ℕ) → Arrival
  closed : Arrival
  recv_failed : (errno : ℕ) → Arrival

-- What one call of recv for many bytes returns; no bytes are the end of the stream. It is never more
-- than what was asked for, which `take` sees to.
pub data Chunk : Type 0 where
  chunk : Bytes → Chunk
  chunk_failed : (errno : ℕ) → Chunk

abbrev pub drop : ℕ → Bytes → Bytes
drop zero s = s
drop (suc n) [] = []
drop (suc n) (b ∷ s) = drop n s

abbrev pub min : ℕ → ℕ → ℕ
min a b = if leb a b then a else b

-- The loop of `tcp_send_bytes`; `out` is what the peer has been sent.
unfoldable pub send_loop : List Sent → (buf : Bytes) (bsent : ℕ) (out : Bytes) → Option (ℤ × Bytes)
send_loop [] buf bsent out = if ltb bsent (length buf) then none else some (pos bsent, out)
send_loop (send_failed errno ∷ answers) buf bsent out =
    if ltb bsent (length buf) then some (negate errno, out) else some (pos bsent, out)
send_loop (wrote capacity ∷ answers) buf bsent out =
    let rv = min capacity (length buf - bsent) in
    let rest = send_loop answers buf (bsent + rv) (out ++ take rv (drop bsent buf)) in
    if ltb bsent (length buf) then rest else some (pos bsent, out)

unfoldable pub tcp_send_bytes : List Sent → (buf out : Bytes) → Option (ℤ × Bytes)
unfolding send_loop
tcp_send_bytes answers buf out = send_loop answers buf 0 out

-- The loop of `tcp_read_bytes`; the result has what has been read into the buffer.
unfoldable pub read_loop : List Chunk → (bytes : ℕ) (msg_buf : Bytes) → Option (ℤ × Bytes)
read_loop [] bytes msg_buf =
    if ltb (length msg_buf) bytes then none else some (pos (length msg_buf), msg_buf)
read_loop (chunk_failed errno ∷ answers) bytes msg_buf =
    if ltb (length msg_buf) bytes
    then some (negate errno, msg_buf)
    else some (pos (length msg_buf), msg_buf)
read_loop (chunk [] ∷ answers) bytes msg_buf = some (pos (length msg_buf), msg_buf)
read_loop (chunk (c ∷ cs) ∷ answers) bytes msg_buf =
    let rest = read_loop answers bytes (msg_buf ++ take (bytes - length msg_buf) (c ∷ cs)) in
    if ltb (length msg_buf) bytes then rest else some (pos (length msg_buf), msg_buf)

unfoldable pub tcp_read_bytes : List Chunk → (bytes : ℕ) → Option (ℤ × Bytes)
unfolding read_loop
tcp_read_bytes answers bytes = read_loop answers bytes []

-- `delim.str[delim.pos]` for "\r\n\r\n".
abbrev pub delim_at : ℕ → ℕ
delim_at matched =
    if matched == 0
    then b'\r'
    else if matched == 1
    then b'\n'
    else if matched == 2
    then b'\r'
    else b'\n'

abbrev pub next_pos : ℕ → ℕ → ℕ
next_pos matched c = if c == delim_at matched then matched + 1 else 0

-- What `tcp_read_msg` leaves: its return value, what is in the buffer in front of the NUL, if one is
-- written, and what has not been read.
pub record ReadMsg : Type 0 where
  pub rv : ℤ
  pub buf : Bytes
  pub terminated : Bool
  pub unread : List Arrival

-- The condition of the loop of `tcp_read_msg`: `i` bytes are in the buffer, `matched` bytes of the
-- delimiter have been seen (`delim.pos`).
abbrev pub reads_on : (len i matched : ℕ) → Bool
reads_on len i matched = if ltb i len then ltb matched 4 else false

abbrev pub read_done : List Arrival → (len i : ℕ) → Bytes → ReadMsg
read_done unread len i buf = record {
  rv = pos i;
  buf = buf;
  terminated = ltb i len;
  unread = unread;
}

unfoldable pub read_msg_loop :
    (arrivals : List Arrival) (len i matched : ℕ) (buf : Bytes) → Option ReadMsg
read_msg_loop [] len i matched buf =
    if reads_on len i matched then none else some (read_done [] len i buf)
read_msg_loop (byte c ∷ rest) len i matched buf =
    let again = read_msg_loop rest len (i + 1) (next_pos matched c) (buf ++ c ∷ []) in
    if reads_on len i matched then again else some (read_done (byte c ∷ rest) len i buf)
read_msg_loop (closed ∷ rest) len i matched buf =
    if reads_on len i matched
    then some (record { rv = pos 0; buf = buf; terminated = false; unread = rest })
    else some (read_done (closed ∷ rest) len i buf)
read_msg_loop (recv_failed errno ∷ rest) len i matched buf =
    if reads_on len i matched
    then some (record { rv = negate errno; buf = buf; terminated = false; unread = rest })
    else some (read_done (recv_failed errno ∷ rest) len i buf)

unfoldable pub tcp_read_msg : List Arrival → (len : ℕ) → Option ReadMsg
unfolding read_msg_loop
tcp_read_msg arrivals len = read_msg_loop arrivals len 0 0 []
