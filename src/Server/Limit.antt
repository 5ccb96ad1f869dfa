-- ===== src/Server/Limit.antt =====
-- What the count of threads in common/server.c keeps, and what it loses.
use psnet.Prelude.{ℕ, ◌+◌, pos, ◌≤◌, ◌≡◌}
use psnet.Server.{Server}

-- The count is that of the threads that run and of the failures.
record Counted (max_threads k : ℕ) (s : Server) : Type 0 where
  count : s.num_threads ≡ pos (s.running + k)
  limit : s.running + k ≤ max_threads
