-- ===== src/Network/Udp.antt =====
-- common/network.c: sending datagrams, and what is printed into a buffer before it is sent.
use psnet.Prelude.{
  ℕ, ◌+◌, ◌-◌, ◌≤◌, ◌<◌, ◌≡◌, refl, ◌∙◌, sym, ap, arith, suc, zero, true, Option, none, some, List,
  [], ◌∷◌, ◌++◌, leb, ◌>>=◌, if◌then◌else◌, length, length-append, take, take-append, take_whole, ℤ,
  pos, negate,
}
use psnet.Libc.{Bytes}
use psnet.Ipv6.{SockAddr}
use psnet.Client.{Datagram}
use psnet.Network.{Sent, tcp_send_bytes}

-- What the system answers to `udp_send`: an error of socket or of sendto, or how many bytes sendto
-- has taken.
pub data UdpAnswer : Type 0 where
  socket_failed : (errno : ℕ) → UdpAnswer
  sendto_failed : (errno : ℕ) → UdpAnswer
  took : (rc : ℕ) → UdpAnswer

-- `out` are the datagrams that have been sent.
unfoldable pub udp_send :
    UdpAnswer → (addr : SockAddr) (msg : Bytes) (out : List Datagram) → ℤ × List Datagram
udp_send (socket_failed errno) addr msg out = (negate errno, out)
udp_send (sendto_failed errno) addr msg out = (negate errno, out)
udp_send (took rc) addr msg out = (pos rc, out ++ record { to = addr; payload = msg } ∷ [])

-- `len` bytes of the buffer of `size` bytes that vsnprintf has printed `str` into, where `len` is
-- what it returns, the length of `str`; `none` is a read beyond the buffer. vsnprintf cuts what it
-- prints to `size - 1` bytes and puts a NUL behind them.
unfoldable pub printed : (size : ℕ) (str : Bytes) → Option Bytes
printed size str =
    if leb (length str) size then some (take (length str) (take (size - 1) str ++ 0 ∷ [])) else none

unfoldable pub tcp_sendf : List Sent → (size : ℕ) (str out : Bytes) → Option (ℤ × Bytes)
unfolding printed
tcp_sendf answers size str out = printed size str >>= λ buf. tcp_send_bytes answers buf out

unfoldable pub udp_sendf :
    UdpAnswer
    → (addr : SockAddr) (size : ℕ) (str : Bytes) (out : List Datagram) → Option (ℤ × List Datagram)
unfolding printed udp_send
udp_sendf answer addr size str out = printed size str >>= λ buf. some (udp_send answer addr buf out)

take_all : (n : ℕ) (s r : Bytes) → length s ≤ n → take (length s) (take n s ++ r) ≡ s
take_all n [] r h = refl
take_all zero (c ∷ s) r h = absurd (omega arith)
take_all (suc n) (c ∷ s) r h = ap (λ l. c ∷ l) (take_all n s r (omega arith))

-- What is shorter than the buffer is sent as it is.
pub printed-fits : (size : ℕ) (str : Bytes) → length str < size → printed size str ≡ some str
unfolding printed
printed-fits size str h =
    let b : leb (length str) size ≡ true = ground arith in
    rw b (ap some (take_all (size - 1) str (0 ∷ []) (omega arith)))

pub printed-over : (size : ℕ) (str : Bytes) → size < length str → printed size str ≡ none
unfolding printed
printed-over size str h = ground arith

-- What has the size of the buffer loses its last byte to the NUL.
pub printed-cut :
    (str : Bytes) (c : ℕ) → printed (length str + 1) (str ++ c ∷ []) ≡ some (str ++ 0 ∷ [])
unfolding printed
printed-cut str c =
    let e : length (str ++ c ∷ []) ≡ length str + 1 = length-append str (c ∷ []) in
    let f : length str + 1 ≡ length (str ++ 0 ∷ []) = sym (length-append str (0 ∷ [])) in
    let g : length str + 1 - 1 ≡ length str = omega arith in
    let b : leb (length str + 1) (length str + 1) ≡ true = ground arith in
    rw (e, b, g)
      (ap (λ l. some (take (length str + 1) (l ++ 0 ∷ []))) (take-append str (c ∷ []))
        ∙ ap some (take_whole (length str + 1) (str ++ 0 ∷ []) (omega (arith, f))))
