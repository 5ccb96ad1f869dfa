-- ===== src/Server.antt =====
-- common/server.c: the limit on the number of threads.
--
-- `num_threads` is under a mutex, so a request that comes in and a thread that ends are one step
-- each; the loops of tcp_server_main and udp_server_main count alike. `running` is the number of
-- threads that there are. The relation begins with the count at 0 and no thread, behind
-- udp_server_init. `num_threads` is an int, and is below 0 when a thread ends that was counted before
-- the count was set to 0.
pub mod Limit
pub mod Sockets
pub mod Datagrams
use psnet.Prelude.{
  ℕ, suc, ◌+◌, ◌-◌, ◌<◌, ◌≡◌, Bool, true, false, leb, if◌then◌else◌, ℤ, pos, negsuc, incremented,
  decremented,
}

pub record Server : Type 0 where
  pub num_threads : ℤ
  pub running : ℕ

abbrev pub start : Server
start = record { num_threads = pos 0; running = 0 }

-- `num_threads >= max_threads`.
abbrev pub reached : (max_threads : ℕ) (num_threads : ℤ) → Bool
reached max_threads (pos n) = leb max_threads n
reached max_threads (negsuc n) = false

-- A turn of the loop, with a request that has come in and whether pthread_create makes a thread.
unfoldable pub serve : (max_threads : ℕ) (created : Bool) → Server → Server
serve max_threads created s = if reached max_threads s.num_threads then s else record {
  num_threads = incremented s.num_threads;
  running = if created then s.running + 1 else s.running;
}

-- The end of a thread: `num_threads--` in the handlers.
unfoldable pub end_thread : Server → Server
end_thread s = record { num_threads = decremented s.num_threads; running = s.running - 1 }

-- The states that come about with so many failures of pthread_create.
pub data Reach (max_threads : ℕ) : (failures : ℕ) → Server → Type 0 where
  begun : Reach max_threads 0 start
  refused :
      {k : ℕ} {s : Server} (created : Bool)
      → Reach max_threads k s
      → reached max_threads s.num_threads ≡ true
      → Reach max_threads k (serve max_threads created s)
  served :
      {k : ℕ} {s : Server}
      → Reach max_threads k s
      → reached max_threads s.num_threads ≡ false
      → Reach max_threads k (serve max_threads true s)
  failed :
      {k : ℕ} {s : Server}
      → Reach max_threads k s
      → reached max_threads s.num_threads ≡ false
      → Reach max_threads (suc k) (serve max_threads false s)
  ended :
      {k : ℕ} {s : Server}
      → Reach max_threads k s
      → 0 < s.running
      → Reach max_threads k (end_thread s)
