-- ===== src/Connection.antt =====
-- The loop of `handle_connection` in tracker/service.c and router/service.c: requests are read from
-- a socket and answered until the peer closes it, or a request is bad.
--
-- `request` is a turn behind the reading: from the state, the message and `ntok`, the state, what is
-- sent, the new `ntok`, and whether the connection goes on. `between` is what other threads make of
-- the state before the turn of that number.
pub mod Ends
pub mod Session
use psnet.Prelude.{
  ℕ, zero, suc, ◌+◌, Bool, true, false, Option, none, some, List, [], ◌∷◌, ◌++◌, ltb, if◌then◌else◌,
  length, above,
}
use psnet.Libc.{Bytes, c_string}
use psnet.Network.{Arrival, ReadMsg, tcp_read_msg}

-- How a connection comes out. `waiting` is a peer that is silent for ever, `faulted` a fault of
-- memory, `spent` a loop that has had more turns than its fuel.
pub data Outcome (S : Type 0) : Type 0 where
  ended : S → (out : Bytes) → Outcome S
  faulted waiting spent : Outcome S

-- The string in `mi->msg`: a NUL is there if `tcp_read_msg` has written one, or among the bytes.
abbrev pub msg_string : ReadMsg → Option Bytes
msg_string r =
    if r.terminated
    then some (c_string r.buf)
    else if ltb (length (c_string r.buf)) (length r.buf)
    then some (c_string r.buf)
    else none

module _ {S : Type 0} where
  unfoldable pub after_read :
      Option ReadMsg → (stop : Outcome S) → (Bytes → List Arrival → Outcome S) → Outcome S
  after_read none stop go = waiting
  after_read (some r) stop go =
      if above r.rv 0
      then elim (msg_string r) [ none ↦ faulted | some msg ↦ go msg r.unread ]
      else stop

  unfoldable pub after_request :
      Option (S × Bytes × ℕ × Bool) → (out : Bytes) → (S → Bytes → ℕ → Outcome S) → Outcome S
  after_request none out go = faulted
  after_request (some q) out go = if q.3 then go q.0 (out ++ q.1) q.2 else ended q.0 (out ++ q.1)

  module _ (request : S → Bytes → ℕ → Option (S × Bytes × ℕ × Bool)) (between : ℕ → S → S) where
    -- `turn` counts the turns, `out` is what the peer has been sent.
    unfoldable pub connection_loop :
        (fuel turn : ℕ) (s : S) (ntok : ℕ) (arrivals : List Arrival) (out : Bytes) → Outcome S
    unfolding after_read after_request
    connection_loop zero turn s ntok arrivals out = spent
    connection_loop (suc fuel) turn s ntok arrivals out =
        after_read (tcp_read_msg arrivals 512) (ended (between turn s) out) (λ msg unread.
          after_request (request (between turn s) msg ntok) out
            (λ s' out' ntok'. connection_loop fuel (turn + 1) s' ntok' unread out'))

    -- Each turn reads a byte at least.
    unfoldable pub serve_connection : S → List Arrival → Outcome S
    unfolding connection_loop
    serve_connection s arrivals = connection_loop (suc (length arrivals)) 0 s 256 arrivals []
