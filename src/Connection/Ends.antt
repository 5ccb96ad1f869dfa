-- ===== src/Connection/Ends.antt =====
-- The loop of `handle_connection` ends when the peer closes its side, or the socket fails.
use psnet.Prelude.{
  ℕ, zero, suc, ◌+◌, ◌<◌, ◌≤◌, ◌≡◌, refl, ◌∙◌, sym, inl, inr, arith, Bool-cases, Bool, true, false,
  Option, none, some, List, [], ◌∷◌, ◌++◌, ltb, length, above, ℤ, pos, negate,
}
use psnet.Libc.{Bytes}
use psnet.Network.{
  Arrival, byte, closed, recv_failed, ReadMsg, next_pos, reads_on, read_done, read_msg_loop,
  tcp_read_msg,
}
use psnet.Connection.{
  Outcome, ended, faulted, waiting, spent, msg_string, after_read, after_request, connection_loop,
  serve_connection,
}

-- The bytes are followed by the end of the stream or by an error.
abbrev pub Closes : List Arrival → Type 0
Closes [] = ⊥
Closes (byte c ∷ rest) = Closes rest
Closes (closed ∷ rest) = Unit
Closes (recv_failed errno ∷ rest) = Unit

-- The bytes in front of that.
abbrev pub bytes_before : List Arrival → ℕ
bytes_before [] = 0
bytes_before (byte c ∷ rest) = suc (bytes_before rest)
bytes_before (closed ∷ rest) = 0
bytes_before (recv_failed errno ∷ rest) = 0

bytes_before-length : (arrivals : List Arrival) → bytes_before arrivals ≤ length arrivals
bytes_before-length [] = omega arith
bytes_before-length (byte c ∷ rest) = omega (arith, bytes_before-length rest)
bytes_before-length (closed ∷ rest) = omega arith
bytes_before-length (recv_failed errno ∷ rest) = omega arith

-- The handler comes to its end, or to a fault of memory.
abbrev pub Stops : {S : Type 0} → Outcome S → Type 0
Stops (ended s out) = Unit
Stops faulted = Unit
Stops waiting = ⊥
Stops spent = ⊥

-- What reading from arrivals that close leaves.
record IsRead (arrivals : List Arrival) (r : ReadMsg) : Type 0 where
  closes : above r.rv 0 ≡ true → Closes r.unread
  shorter : above r.rv 0 ≡ true → bytes_before r.unread ≤ bytes_before arrivals

above-negate : (n : ℕ) → above (negate n) 0 ≡ false
above-negate zero = refl
above-negate (suc n) = let b : ltb 0 (suc n) ≡ true = ground arith in rw b refl

-- The loop ends on what it has read.
done-IsRead :
    (arrivals : List Arrival) (len i : ℕ) (buf : Bytes)
    → Closes arrivals
    → IsRead arrivals (read_done arrivals len i buf)
done-IsRead arrivals len i buf c = record { closes = λ h. c; shorter = λ h. omega arith }

-- The loop is left by a return.
returned-IsRead :
    (a : Arrival) (rest : List Arrival) (v : ℤ) (buf : Bytes)
    → above v 0 ≡ false
    → IsRead (a ∷ rest) (record { rv = v; buf = buf; terminated = false; unread = rest })
returned-IsRead a rest v buf n = record {
  closes = λ h. absurd (let f : false ≡ true = sym n ∙ h in cc);
  shorter = λ h. absurd (let f : false ≡ true = sym n ∙ h in cc);
}

read_msg_loop-IsRead :
    (arrivals : List Arrival) (len i matched : ℕ) (buf : Bytes)
    → Closes arrivals
    → (r : ReadMsg) × (read_msg_loop arrivals len i matched buf ≡ some r) × IsRead arrivals r
unfolding read_msg_loop
read_msg_loop-IsRead [] len i matched buf c = absurd c
read_msg_loop-IsRead (byte b ∷ rest) len i matched buf c =
    elim (Bool-cases (reads_on len i matched)) [
      | inr off ↦ rw off (_, refl, done-IsRead (byte b ∷ rest) len i buf c)
      | inl on ↦ rw on (
          let (r, e, p) =
            read_msg_loop-IsRead rest len (i + 1) (next_pos matched b) (buf ++ b ∷ []) c in
          (r, e, record { closes = p.closes; shorter = λ h. omega (arith, p.shorter h) }))
    ]
read_msg_loop-IsRead (closed ∷ rest) len i matched buf c =
    elim (Bool-cases (reads_on len i matched)) [
      | inr off ↦ rw off (_, refl, done-IsRead (closed ∷ rest) len i buf c)
      | inl on ↦ rw on (_, refl, returned-IsRead closed rest (pos 0) buf refl)
    ]
read_msg_loop-IsRead (recv_failed n ∷ rest) len i matched buf c =
    elim (Bool-cases (reads_on len i matched)) [
      | inr off ↦ rw off (_, refl, done-IsRead (recv_failed n ∷ rest) len i buf c)
      | inl on ↦
          rw on (_, refl, returned-IsRead (recv_failed n) rest (negate n) buf (above-negate n))
    ]

-- A call that returns a message has read a byte.
record IsProgress (arrivals : List Arrival) (r : ReadMsg) : Type 0 where
  closes : Closes r.unread
  fewer : bytes_before r.unread < bytes_before arrivals

tcp_read_msg-IsProgress :
    (arrivals : List Arrival)
    → Closes arrivals
    → (r : ReadMsg) × (tcp_read_msg arrivals 512 ≡ some r)
      × (above r.rv 0 ≡ true → IsProgress arrivals r)
unfolding tcp_read_msg read_msg_loop
tcp_read_msg-IsProgress [] c = absurd c
tcp_read_msg-IsProgress (byte b ∷ rest) c =
    let (r, e, p) = read_msg_loop-IsRead rest 512 1 (next_pos 0 b) (b ∷ []) c in
    (r, e, λ h. record { closes = p.closes h; fewer = omega (arith, p.shorter h) })
tcp_read_msg-IsProgress (closed ∷ rest) c = (_, refl, λ h. absurd (let f : false ≡ true = h in cc))
tcp_read_msg-IsProgress (recv_failed n ∷ rest) c =
    (_, refl, λ h. absurd (let f : false ≡ true = sym (above-negate n) ∙ h in cc))

module _ {S : Type 0} where
  after_request-Stops :
      (o : Option (S × Bytes × ℕ × Bool)) (out : Bytes) (go : S → Bytes → ℕ → Outcome S)
      → ((s : S) (out' : Bytes) (ntok : ℕ) → Stops (go s out' ntok))
      → Stops (after_request o out go)
  unfolding after_request
  after_request-Stops none out go h = tt
  after_request-Stops (some (s, sent, ntok, true)) out go h = h s (out ++ sent) ntok
  after_request-Stops (some (s, sent, ntok, false)) out go h = tt

  after_read-Stops :
      (r : ReadMsg) (s : S) (out : Bytes) (go : Bytes → List Arrival → Outcome S)
      → (above r.rv 0 ≡ true → (msg : Bytes) → Stops (go msg r.unread))
      → Stops (after_read (some r) (ended s out) go)
  unfolding after_read
  after_read-Stops r s out go h = elim (Bool-cases (above r.rv 0)) [
    | inr n ↦ rw n tt
    | inl y ↦
        rw y
          (elim (msg_string r)
            as (λ o. Stops (elim o [ none ↦ faulted | some msg ↦ go msg r.unread ])) [
              | none ↦ tt
              | some msg ↦ h y msg
            ])
  ]

  module _ (request : S → Bytes → ℕ → Option (S × Bytes × ℕ × Bool)) (between : ℕ → S → S) where
    connection_loop-Stops :
        (fuel turn : ℕ) (s : S) (ntok : ℕ) (arrivals : List Arrival) (out : Bytes)
        → bytes_before arrivals < fuel
        → Closes arrivals
        → Stops (connection_loop request between fuel turn s ntok arrivals out)
    unfolding connection_loop
    connection_loop-Stops zero turn s ntok arrivals out h c = absurd (omega arith)
    connection_loop-Stops (suc fuel) turn s ntok arrivals out h c =
        let (r, e, p) = tcp_read_msg-IsProgress arrivals c in
        rw e (
          after_read-Stops r (between turn s) out
            (λ msg unread. after_request (request (between turn s) msg ntok) out (λ s' out' ntok'.
              connection_loop request between fuel (turn + 1) s' ntok' unread out'))
            (λ y msg.
              after_request-Stops (request (between turn s) msg ntok) out _ (λ s' out' ntok'.
                connection_loop-Stops fuel (turn + 1) s' ntok' r.unread out'
                  (omega (arith, (p y).fewer)) (p y).closes)))

    -- However the requests are answered and whatever other threads do, the loop of
    -- `handle_connection` comes to its end (or to a fault of memory), if the peer closes the stream
    -- or the socket fails: within as many turns as are allowed, if they are more than the bytes in
    -- front of that.
    pub serve_connection-Stops :
        (s : S) (arrivals : List Arrival) (turns : ℕ)
        → Closes arrivals
        → bytes_before arrivals < turns
        → Stops (serve_connection request between s arrivals)
          × Stops (connection_loop request between turns 0 s 256 arrivals [])
    unfolding serve_connection
    serve_connection-Stops s arrivals turns c few = (
      connection_loop-Stops (suc (length arrivals)) 0 s 256 arrivals []
          (omega (arith, bytes_before-length arrivals)) c,
      connection_loop-Stops turns 0 s 256 arrivals [] few c,
    )
