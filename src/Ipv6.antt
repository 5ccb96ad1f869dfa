-- ===== src/Ipv6.antt =====
-- include/ipv6.h: socket addresses of both families, and when two are the same.
--
-- A `struct sockaddr_storage` is its family with the fields of that family: the address as the
-- number `s_addr` or as the bytes `s6_addr`, and the port in network byte order. Of a family that is
-- neither, the code reads the fields of a `struct sockaddr_in6`.
pub mod Equality
use psnet.Prelude.{ℕ, Bool, true, false, not, ◌&&◌, ◌==◌}
use psnet.Libc.{Bytes, bytes_eq}

pub data SockAddr : Type 0 where
  inet : (s_addr port : ℕ) → SockAddr
  inet6 : (s6_addr : Bytes) (port : ℕ) → SockAddr
  other : (family : ℕ) (s6_addr : Bytes) (port : ℕ) → SockAddr

-- `sizeof (struct sockaddr_in)` and `sizeof (struct sockaddr_in6)`.
unfoldable pub get_sockaddr_size : SockAddr → ℕ
get_sockaddr_size (inet a p) = 16
get_sockaddr_size (inet6 a p) = 28
get_sockaddr_size (other f a p) = 28

unfoldable pub get_in_port : SockAddr → ℕ
get_in_port (inet a p) = p
get_in_port (inet6 a p) = p
get_in_port (other f a p) = p

unfoldable pub set_in_port : SockAddr → ℕ → SockAddr
set_in_port (inet a p) val = inet a val
set_in_port (inet6 a p) val = inet6 a val
set_in_port (other f a p) val = other f a val

-- INET_ADDRSTRLEN and INET6_ADDRSTRLEN.
unfoldable pub get_addr_strlen : SockAddr → ℕ
get_addr_strlen (inet a p) = 16
get_addr_strlen (inet6 a p) = 46
get_addr_strlen (other f a p) = 46

unfoldable pub sockaddr_equals : SockAddr → SockAddr → Bool
unfolding bytes_eq
sockaddr_equals (inet a p) (inet b q) = (a == b) && (p == q)
sockaddr_equals (inet6 a p) (inet6 b q) = bytes_eq a b && (p == q)
sockaddr_equals _ _ = false

-- The IPv4 branch is as the source has it, with `!=`.
unfoldable pub ip_addr_equals : SockAddr → SockAddr → Bool
unfolding bytes_eq
ip_addr_equals (inet a p) (inet b q) = not (a == b)
ip_addr_equals (inet6 a p) (inet6 b q) = bytes_eq a b
ip_addr_equals (other f a p) (other g b q) = (f == g) && bytes_eq a b
ip_addr_equals _ _ = false
