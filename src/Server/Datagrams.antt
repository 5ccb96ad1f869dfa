-- ===== src/Server/Datagrams.antt =====
-- common/server.c: what the loop of udp_server_main hands to the handler of a datagram.
use psnet.Prelude.{
  ℕ, ◌+◌, ◌≤◌, ◌≡◌, refl, Bool, true, false, Option, none, some, ◌++◌, if◌then◌else◌, incremented,
  length, take, take_whole,
}
use psnet.Libc.{Bytes}
use psnet.Ipv6.{SockAddr, inet, inet6, other}
use psnet.Server.{Server, reached, serve}

-- What recvfrom answers: an error, or a datagram with the address of its sender.
pub data Received : Type 0 where
  recvfrom_failed : Received
  datagram : (payload : Bytes) (sender : SockAddr) → Received

-- The fields of `struct msg_info` that are set; `msg` is what stands in front of the NUL behind
-- the message.
pub record MsgInfo : Type 0 where
  pub addr : SockAddr
  pub msg : Bytes
  pub len : ℕ

-- recvfrom is given room for a `struct sockaddr_in`, 16 bytes. Of a larger address the first 8 bytes
-- of `s6_addr` are in these; the rest is as malloc has left it, the bytes `stale`.
abbrev pub stored : (stale : Bytes) → SockAddr → SockAddr
stored stale (inet a p) = inet a p
stored stale (inet6 a p) = inet6 (take 8 a ++ stale) p
stored stale (other f a p) = other f (take 8 a ++ stale) p

-- The message as recvfrom leaves it, with 511 bytes at most.
unfoldable pub msg_info_of : (stale payload : Bytes) (sender : SockAddr) → MsgInfo
msg_info_of stale payload sender = record {
  addr = stored stale sender;
  msg = take 511 payload;
  len = length (take 511 payload);
}

-- A turn of the loop of udp_server_main: the count, and what the new thread gets, if there is one.
unfoldable pub udp_turn :
    (max_threads : ℕ) (stale : Bytes) (created : Bool) → Received → Server → Server × Option MsgInfo
unfolding serve msg_info_of
udp_turn max_threads stale created recvfrom_failed s = (s, none)
udp_turn max_threads stale created (datagram payload sender) s = (
  serve max_threads created s,
  if reached max_threads s.num_threads
      then none
      else if created
      then some (msg_info_of stale payload sender)
      else none,
)

-- A datagram of 511 bytes at most from an IPv4 address reaches a handler as it is, if the limit is
-- not reached and the thread is made.
pub udp_turn-inet :
    (max_threads : ℕ) (stale payload : Bytes) (a p : ℕ) (s : Server)
    → reached max_threads s.num_threads ≡ false
    → length payload ≤ 511
    → udp_turn max_threads stale true (datagram payload (inet a p)) s ≡ (
      record { num_threads = incremented s.num_threads; running = s.running + 1 },
      some (record { addr = inet a p; msg = payload; len = length payload }),
    )
unfolding udp_turn serve msg_info_of
udp_turn-inet max_threads stale payload a p s h k = rw (h, take_whole 511 payload k) refl

-- The handler cannot tell two IPv6 senders apart whose addresses agree in their first 8 bytes: it
-- gets the same message, with the same address, from both.
pub udp_turn-inet6 :
    (max_threads : ℕ) (stale payload : Bytes) (created : Bool) (a b : Bytes) (p : ℕ) (s : Server)
    → take 8 a ≡ take 8 b
    → udp_turn max_threads stale created (datagram payload (inet6 a p)) s
      ≡ udp_turn max_threads stale created (datagram payload (inet6 b p)) s
unfolding udp_turn msg_info_of
udp_turn-inet6 max_threads stale payload created a b p s h = rw h refl
