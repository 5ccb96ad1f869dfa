-- ===== src/Server/Sockets.antt =====
-- common/server.c: how the two servers get their sockets, and what this does to the count of threads.
--
-- For each address of getaddrinfo, what the calls of the system answer is data.
use psnet.Prelude.{
  pos, ℕ, zero, suc, ◌+◌, ◌≤◌, ◌<◌, ◌≡◌, refl, ◌∙◌, ap, arith, Bool, true, false, Option, none,
  some, List, [], ◌∷◌, leb, if◌then◌else◌,
}
use psnet.Server.{Server, start, serve}

pub data Attempt : Type 0 where
  socket_failed setsockopt_failed : Attempt
  bind_failed bound : (sockfd : ℕ) → Attempt

-- How the loop over the addresses comes out; `exits` is `exit(EXIT_FAILURE)`.
pub data Search : Type 0 where
  exits not_found : Search
  found : (sockfd : ℕ) → Search

-- The loop of both servers. A socket that is not bound is closed.
unfoldable pub bind_first : List Attempt → Search
bind_first [] = not_found
bind_first (socket_failed ∷ rest) = bind_first rest
bind_first (setsockopt_failed ∷ rest) = exits
bind_first (bind_failed sockfd ∷ rest) = bind_first rest
bind_first (bound sockfd ∷ rest) = found sockfd

-- `addresses` is `none` if getaddrinfo fails, `listens` whether listen succeeds. The result `none`
-- is the end of the program.
unfoldable pub tcp_server_init : (addresses : Option (List Attempt)) (listens : Bool) → Option ℕ
unfolding bind_first
tcp_server_init none listens = none
tcp_server_init (some attempts) listens = elim (bind_first attempts) [
  | exits ↦ none
  | not_found ↦ none
  | found sockfd ↦ if listens then some sockfd else none
]

-- The socket, and the state of the count, which is set to 0.
unfoldable pub udp_server_init : (addresses : Option (List Attempt)) → Server → Option (ℕ × Server)
unfolding bind_first
udp_server_init none s = none
udp_server_init (some attempts) s = elim (bind_first attempts) [
  | exits ↦ none
  | not_found ↦ none
  | found sockfd ↦ some (sockfd, record { num_threads = pos 0; running = s.running })
]

-- Requests that come in one behind the other, each with whether a thread is made for it.
unfoldable pub serve_all : (max_threads : ℕ) → List Bool → Server → Server
serve_all max_threads [] s = s
serve_all max_threads (created ∷ rest) s = serve_all max_threads rest (serve max_threads created s)

abbrev pub times : ℕ → List Bool
times zero = []
times (suc n) = true ∷ times n

serve-room :
    (max_threads n r : ℕ)
    → n < max_threads
    → serve max_threads true (record { num_threads = pos n; running = r })
      ≡ record { num_threads = pos (suc n); running = r + 1 }
unfolding serve
serve-room max_threads n r h = let b : leb max_threads n ≡ false = ground arith in rw b refl

serve_all-room :
    (k max_threads n r : ℕ)
    → n + k ≤ max_threads
    → serve_all max_threads (times k) (record { num_threads = pos n; running = r })
      ≡ record { num_threads = pos (n + k); running = r + k }
unfolding serve_all
serve_all-room zero max_threads n r h =
    λ i. record { num_threads = pos (back n i); running = back r i }
  where
    back : (m : ℕ) → m ≡ m + 0
    back m = omega arith
serve_all-room (suc k) max_threads n r h =
    ap (serve_all max_threads (times k)) (serve-room max_threads n r (omega arith))
    ∙ serve_all-room k max_threads (suc n) (r + 1) (omega arith)
    ∙ (λ i. record { num_threads = pos (moved i); running = shift r i })
  where
    moved : suc n + k ≡ n + suc k
    moved = omega arith

    shift : (m : ℕ) → m + 1 + k ≡ m + suc k
    shift m = omega arith

-- `udp_server_init` runs beside tcp_server_main and sets the count to 0 again: with one connection
-- open by then, as many requests as the limit allows make one thread more than it allows.
pub udp_server_init-exceeds :
    (max_threads sockfd : ℕ) (rest : List Attempt)
    → 0 < max_threads
    → (s : Server) × (udp_server_init (some (bound sockfd ∷ rest)) (serve max_threads true start)
        ≡ some (sockfd, s))
      × ((serve_all max_threads (times max_threads) s).running ≡ max_threads + 1)
unfolding udp_server_init bind_first
udp_server_init-exceeds max_threads sockfd rest h =
    let e = serve-room max_threads 0 0 h in
    (
      record { num_threads = pos 0; running = 1 },
      ap (λ s. some (sockfd, record { num_threads = pos 0; running = s.running })) e,
      ap (λ s. s.running) (serve_all-room max_threads max_threads 0 1 (omega arith))
          ∙ (omega arith),
    )
