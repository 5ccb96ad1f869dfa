-- ===== src/Tests/Threads.antt =====
-- The limit of common/server.c in a server of one thread.
use psnet.Server.Sockets.{bound, udp_server_init, serve_all, times, udp_server_init-exceeds}
use psnet.Prelude.{some, [], ◌∷◌, ◌≡◌, true, false, arith}
use psnet.Server.{Server, start, serve}

abbrev busy : Server
busy = serve 1 true start

abbrev stuck : Server
stuck = serve 1 false start

udp_server_init-exceeds_example :
    (s : Server) × (udp_server_init (some (bound 7 ∷ [])) (serve 3 true start) ≡ some (7, s))
    × ((serve_all 3 (times 3) s).running ≡ 4)
udp_server_init-exceeds_example = udp_server_init-exceeds 3 7 [] (omega arith)
