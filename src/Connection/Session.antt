-- ===== src/Connection/Session.antt =====
-- The loop of `handle_connection` over whole messages, each with its delimiter behind it.
use psnet.Prelude.{
  ℕ, zero, suc, Bool, false, ◌+◌, ◌<◌, ◌≤◌, ◌≡◌, refl, ◌∙◌, sym, ap, arith, true, Option, none,
  some, List, [], ◌∷◌, ◌++◌, append_assoc, append-nil, ltb, map, length, pos, above, ◌>>=◌,
  if◌then◌else◌,
}
use psnet.Libc.{Bytes, c_string}
use psnet.Network.{Arrival, byte, closed, ReadMsg, tcp_read_msg}
use psnet.Network.Frame.{delimiter, IsPlain, tcp_read_msg-delimited}
use psnet.Connection.{
  Outcome, ended, faulted, after_read, after_request, connection_loop, serve_connection,
}

abbrev pub framed : Bytes → List Arrival → List Arrival
framed msg rest = map byte msg ++ (map byte delimiter ++ rest)

abbrev pub read_whole : Bytes → List Arrival → ReadMsg
read_whole msg rest = record {
  rv = pos (length msg + 4);
  buf = msg ++ delimiter;
  terminated = true;
  unread = rest;
}

tcp_read_msg-whole :
    (msg : Bytes) (rest : List Arrival)
    → IsPlain msg
    → length msg + 4 < 512
    → tcp_read_msg (framed msg rest) 512 ≡ some (read_whole msg rest)
tcp_read_msg-whole msg rest p h =
    let b : ltb (length msg + 4) 512 ≡ true = ground arith in
    tcp_read_msg-delimited msg rest 512 p (omega arith)
    ∙ ap
        (λ t. some (record {
          rv = pos (length msg + 4);
          buf = msg ++ delimiter;
          terminated = t;
          unread = rest;
        }))
        b

after_read-whole :
    {S : Type 0} (msg : Bytes) (rest : List Arrival) (stop : Outcome S)
    (go : Bytes → List Arrival → Outcome S)
    → after_read (some (read_whole msg rest)) stop go ≡ go (c_string (msg ++ delimiter)) rest
unfolding after_read
after_read-whole msg rest stop go =
    let b : above (pos (length msg + 4)) 0 ≡ true = ground arith in rw b refl

pub framed-length : (msg : Bytes) (rest : List Arrival) → length rest + 4 ≤ length (framed msg rest)
framed-length [] rest = omega arith
framed-length (c ∷ msg) rest = omega (arith, framed-length msg rest)

-- The stream of the messages, at whose end the peer closes.
abbrev pub stream : List Bytes → List Arrival
stream [] = closed ∷ []
stream (msg ∷ msgs) = framed msg (stream msgs)

abbrev pub AllFit : List Bytes → Type 0
AllFit [] = Unit
AllFit (msg ∷ msgs) = IsPlain msg × (length msg + 4 < 512) × AllFit msgs

length-stream : (msgs : List Bytes) → length msgs < length (stream msgs)
length-stream [] = omega arith
length-stream (msg ∷ msgs) = omega (arith, length-stream msgs, framed-length msg (stream msgs))

module _ {S : Type 0} where
  abbrev pub outcome : (out : Bytes) → Option (S × Bytes) → Outcome S
  outcome out none = faulted
  outcome out (some r) = ended r.0 (out ++ r.1)

  outcome-append :
      (out sent : Bytes) (o : Option (S × Bytes))
      → outcome (out ++ sent) o ≡ outcome out (o >>= λ r. some (r.0, sent ++ r.1))
  outcome-append out sent none = refl
  outcome-append out sent (some r) = ap (ended r.0) (append_assoc out sent r.1)

  -- A turn and the rest of the messages.
  after_request-outcome :
      (o : Option (S × Bytes × ℕ × Bool)) (out : Bytes) (go : S → Bytes → ℕ → Outcome S)
      (rest : S → ℕ → Option (S × Bytes))
      → ((s : S) (out' : Bytes) (ntok : ℕ) → go s out' ntok ≡ outcome out' (rest s ntok))
      → after_request o out go
        ≡ outcome out (
            o >>= λ q.
            if q.3 then (rest q.0 q.2 >>= λ r. some (r.0, q.1 ++ r.1)) else some (q.0, q.1))
  unfolding after_request
  after_request-outcome none out go rest h = refl
  after_request-outcome (some (s, sent, ntok, false)) out go rest h = refl
  after_request-outcome (some (s, sent, ntok, true)) out go rest h =
      h s (out ++ sent) ntok ∙ outcome-append out sent (rest s ntok)

module _ {S : Type 0} (request : S → Bytes → ℕ → Option (S × Bytes × ℕ × Bool))
    (between : ℕ → S → S) where
  -- A turn of the loop with a whole message.
  pub connection_loop-whole :
      (fuel turn : ℕ) (t : S) (ntok : ℕ) (msg : Bytes) (rest : List Arrival) (out : Bytes)
      → IsPlain msg
      → length msg + 4 < 512
      → connection_loop request between (suc fuel) turn t ntok (framed msg rest) out
        ≡ after_request
            (request (between turn t) (c_string (msg ++ delimiter)) ntok)
            out
            (λ t' out' ntok'. connection_loop request between fuel (turn + 1) t' ntok' rest out')
  unfolding connection_loop
  connection_loop-whole fuel turn t ntok msg rest out p h = rw (tcp_read_msg-whole msg rest p h) (
      after_read-whole msg rest (ended (between turn t) out) (λ msg' unread.
        after_request (request (between turn t) msg' ntok) out
          (λ t' out' ntok'. connection_loop request between fuel (turn + 1) t' ntok' unread out')))

  -- The messages answered one after the other, until a request is bad or there are no more: the
  -- state, and what is sent. `none` is a fault.
  unfoldable pub session : (turn : ℕ) → S → (ntok : ℕ) → List Bytes → Option (S × Bytes)
  session turn s ntok [] = some (between turn s, [])
  session turn s ntok (msg ∷ msgs) =
      let rest = λ (s' : S) (ntok' : ℕ). session (turn + 1) s' ntok' msgs in
      request (between turn s) (c_string (msg ++ delimiter)) ntok >>= λ q.
      if q.3 then (rest q.0 q.2 >>= λ r. some (r.0, q.1 ++ r.1)) else some (q.0, q.1)

  connection_loop-closed :
      (fuel turn : ℕ) (s : S) (ntok : ℕ) (out : Bytes)
      → connection_loop request between (suc fuel) turn s ntok (closed ∷ []) out
        ≡ ended (between turn s) (out ++ [])
  unfolding connection_loop after_read tcp_read_msg
  connection_loop-closed fuel turn s ntok out = ap (ended (between turn s)) (sym (append-nil out))

  connection_loop-session :
      (msgs : List Bytes) (fuel turn : ℕ) (s : S) (ntok : ℕ) (out : Bytes)
      → AllFit msgs
      → length msgs < fuel
      → connection_loop request between fuel turn s ntok (stream msgs) out
        ≡ outcome out (session turn s ntok msgs)
  unfolding session
  connection_loop-session msgs zero turn s ntok out p f = absurd (omega arith)
  connection_loop-session [] (suc fuel) turn s ntok out p f =
      connection_loop-closed fuel turn s ntok out
  connection_loop-session (msg ∷ msgs) (suc fuel) turn s ntok out (plain, fits, p) f =
      connection_loop-whole fuel turn s ntok msg (stream msgs) out plain fits
      ∙ after_request-outcome (request (between turn s) (c_string (msg ++ delimiter)) ntok) out _ _
          (λ s' out' ntok'.
            connection_loop-session msgs fuel (turn + 1) s' ntok' out' p (omega arith))

  -- `handle_connection` over a stream of messages without carriage returns that fit the buffer, each
  -- with its delimiter behind it, and closed by the peer at the end: the messages are answered one
  -- after the other, each from the state that the one before it and the other threads have left, and
  -- what is sent is the answers in their order, until a request is bad or the messages end; or there
  -- is a fault where answering one has one.
  pub serve_connection-session :
      (s : S) (msgs : List Bytes)
      → AllFit msgs
      → serve_connection request between s (stream msgs) ≡ outcome [] (session 0 s 256 msgs)
  unfolding serve_connection
  serve_connection-session s msgs p =
      connection_loop-session msgs (suc (length (stream msgs))) 0 s 256 [] p
        (omega (arith, length-stream msgs))
