-- ===== src/Network/Bounds.antt =====
-- Whatever arrives, `tcp_read_msg` of common/network.c stays within its buffer, and a message that it
-- returns with a NUL behind it ends in the delimiter.
use psnet.Prelude.{
  ℕ, zero, suc, ◌+◌, ◌≤◌, ◌<◌, ◌≡◌, refl, ◌∙◌, sym, ap, subst, inl, inr, true, false, Option, none,
  some, List, [], ◌∷◌, ◌++◌, arith, Bool-cases, append_assoc, append-nil, ◌==◌, length,
  length-append, take, ℤ, pos, negate,
}
use psnet.Libc.{Bytes}
use psnet.Network.{
  Arrival, byte, closed, recv_failed, ReadMsg, delim_at, next_pos, reads_on, read_done,
  read_msg_loop, tcp_read_msg,
}
use psnet.Network.Frame.{delimiter, read_msg_loop-byte, read_msg_loop-done, read_msg_loop-closed}

-- What the caller may rely on.
pub record IsSound (len : ℕ) (r : ReadMsg) : Type 0 where
  pub fits : length r.buf ≤ len
  pub counted : r.terminated ≡ true → r.rv ≡ pos (length r.buf)
  pub room : r.terminated ≡ true → length r.buf < len
  pub ended : r.terminated ≡ true → (msg : Bytes) × (r.buf ≡ msg ++ delimiter)

-- The state of the loop: the buffer ends in the part of the delimiter that has matched.
record Scanned (len i matched : ℕ) (buf : Bytes) : Type 0 where
  before : Bytes
  parts : buf ≡ before ++ take matched delimiter
  count : length buf ≡ i
  within : i ≤ len
  partial : matched ≤ 4

prefix-grows :
    (k c : ℕ)
    → k < 4
    → (c == delim_at k) ≡ true
    → take k delimiter ++ c ∷ [] ≡ take (k + 1) delimiter
prefix-grows zero c h e = let x : c ≡ 13 = ground arith in ap (λ d. d ∷ []) x
prefix-grows (suc zero) c h e = let x : c ≡ 10 = ground arith in ap (λ d. 13 ∷ d ∷ []) x
prefix-grows (suc (suc zero)) c h e = let x : c ≡ 13 = ground arith in ap (λ d. 13 ∷ 10 ∷ d ∷ []) x
prefix-grows (suc (suc (suc zero))) c h e =
    let x : c ≡ 10 = ground arith in ap (λ d. 13 ∷ 10 ∷ 13 ∷ d ∷ []) x
prefix-grows (suc (suc (suc (suc k)))) c h e = absurd (omega arith)

Scanned-byte :
    (len i matched c : ℕ) (buf : Bytes)
    → reads_on len i matched ≡ true
    → Scanned len i matched buf
    → Scanned len (i + 1) (next_pos matched c) (buf ++ c ∷ [])
Scanned-byte len i matched c buf on s = elim (Bool-cases (c == delim_at matched)) [
  | inl y ↦ rw y (record {
    before = s.before;
    parts =
        ap (λ l. l ++ c ∷ []) s.parts
        ∙ append_assoc s.before (take matched delimiter) (c ∷ [])
        ∙ ap (λ l. s.before ++ l) (prefix-grows matched c (ground arith) y);
    count = omega (arith, length-append buf (c ∷ []), s.count);
    within = ground arith;
    partial = ground arith;
  })
  | inr n ↦ rw n (record {
    before = buf ++ c ∷ [];
    parts = sym (append-nil (buf ++ c ∷ []));
    count = omega (arith, length-append buf (c ∷ []), s.count);
    within = ground arith;
    partial = omega arith;
  })
]

-- The loop ends.
Scanned-IsSound :
    (len i matched : ℕ) (buf : Bytes) (unread : List Arrival)
    → reads_on len i matched ≡ false
    → Scanned len i matched buf
    → IsSound len (read_done unread len i buf)
Scanned-IsSound len i matched buf unread off s = record {
  fits = omega (arith, s.count, s.within);
  counted = λ h. ap pos (sym s.count);
  room = λ h. ground (arith, s.count);
  ended = λ h.
      let full : matched ≡ 4 = ground (arith, s.partial) in
      (s.before, s.parts ∙ ap (λ k. s.before ++ take k delimiter) full);
}

-- The loop is left by a return.
returned-IsSound :
    (len i matched : ℕ) (buf : Bytes) (v : ℤ) (unread : List Arrival)
    → Scanned len i matched buf
    → IsSound len (record { rv = v; buf = buf; terminated = false; unread = unread })
returned-IsSound len i matched buf v unread s = record {
  fits = omega (arith, s.count, s.within);
  counted = λ h. absurd (let f = h in cc);
  room = λ h. absurd (let f = h in cc);
  ended = λ h. absurd (let f = h in cc);
}

some-IsSound :
    (len : ℕ) (o : Option ReadMsg) (x r : ReadMsg)
    → o ≡ some r
    → o ≡ some x
    → IsSound len x
    → IsSound len r
some-IsSound len o x r e f s = let g : x ≡ r = cc in subst (IsSound len) g s

read_msg_loop-failed :
    (errno : ℕ) (rest : List Arrival) (len i matched : ℕ) (buf : Bytes)
    → reads_on len i matched ≡ true
    → read_msg_loop (recv_failed errno ∷ rest) len i matched buf
      ≡ some (record { rv = negate errno; buf = buf; terminated = false; unread = rest })
unfolding read_msg_loop
read_msg_loop-failed errno rest len i matched buf on = rw on refl

read_msg_loop-silent :
    (len i matched : ℕ) (buf : Bytes)
    → reads_on len i matched ≡ true
    → read_msg_loop [] len i matched buf ≡ none
unfolding read_msg_loop
read_msg_loop-silent len i matched buf on = rw on refl

read_msg_loop-IsSound :
    (arrivals : List Arrival) (len i matched : ℕ) (buf : Bytes) (r : ReadMsg)
    → Scanned len i matched buf
    → read_msg_loop arrivals len i matched buf ≡ some r
    → IsSound len r
read_msg_loop-IsSound [] len i matched buf r s e = elim (Bool-cases (reads_on len i matched)) [
  | inr off ↦
      some-IsSound len _ _ r e (read_msg_loop-done [] len i matched buf off)
        (Scanned-IsSound len i matched buf [] off s)
  | inl on ↦
      let f : none ≡ some r = sym (read_msg_loop-silent len i matched buf on) ∙ e in
      absurd (let g = f in cc)
]
read_msg_loop-IsSound (byte c ∷ rest) len i matched buf r s e =
    elim (Bool-cases (reads_on len i matched)) [
      | inr off ↦
          some-IsSound len _ _ r e (read_msg_loop-done (byte c ∷ rest) len i matched buf off)
            (Scanned-IsSound len i matched buf (byte c ∷ rest) off s)
      | inl on ↦
          read_msg_loop-IsSound rest len (i + 1) (next_pos matched c) (buf ++ c ∷ []) r
            (Scanned-byte len i matched c buf on s)
            (sym (read_msg_loop-byte c rest len i matched buf (ground arith) (ground arith)) ∙ e)
    ]
read_msg_loop-IsSound (closed ∷ rest) len i matched buf r s e =
    elim (Bool-cases (reads_on len i matched)) [
      | inr off ↦
          some-IsSound len _ _ r e (read_msg_loop-done (closed ∷ rest) len i matched buf off)
            (Scanned-IsSound len i matched buf (closed ∷ rest) off s)
      | inl on ↦
          some-IsSound len _ _ r e
            (read_msg_loop-closed rest len i matched buf (ground arith) (ground arith))
            (returned-IsSound len i matched buf (pos 0) rest s)
    ]
read_msg_loop-IsSound (recv_failed errno ∷ rest) len i matched buf r s e =
    elim (Bool-cases (reads_on len i matched)) [
      | inr off ↦
          some-IsSound len _ _ r e
            (read_msg_loop-done (recv_failed errno ∷ rest) len i matched buf off)
            (Scanned-IsSound len i matched buf (recv_failed errno ∷ rest) off s)
      | inl on ↦
          some-IsSound len _ _ r e (read_msg_loop-failed errno rest len i matched buf on)
            (returned-IsSound len i matched buf (negate errno) rest s)
    ]

-- However `tcp_read_msg` returns, it has written no more than `len` bytes; and if it has written the
-- NUL, that is within the buffer too, the return value counts the bytes, and they end in the
-- delimiter.
pub tcp_read_msg-IsSound :
    (arrivals : List Arrival) (len : ℕ) (r : ReadMsg)
    → tcp_read_msg arrivals len ≡ some r
    → IsSound len r
unfolding tcp_read_msg
tcp_read_msg-IsSound arrivals len r e =
    read_msg_loop-IsSound arrivals len 0 0 [] r
      (record {
        before = [];
        parts = refl;
        count = refl;
        within = omega arith;
        partial = omega arith;
      })
      e
