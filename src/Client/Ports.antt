-- ===== src/Client/Ports.antt =====
-- `make_client` of common/client.c: which port numbers it takes, and what it makes of them.
use psnet.Prelude.{
  ℕ, ◌+◌, ◌%◌, ◌^◌, ◌<◌, ◌≡◌, refl, true, false, none, some, arith, inl, inr, Bool-cases, ltb, leb,
  if◌then◌else◌,
}
use psnet.Libc.{decimal}
use psnet.Libc.Digits.{strtol-decimal_exact}
use psnet.Ipv6.{SockAddr, set_in_port}
use psnet.Client.{Host, make_client, port_max}

module _ (host : Host) where
  -- A decimal port up to PORT_MAX is taken, and what is set is its value modulo 2 ^ 16 in network
  -- byte order; a larger one (that a long holds) is refused.
  pub make_client-decimal :
      (addr : SockAddr) (n : ℕ)
      → n < 2 ^ 63
      → make_client host addr (decimal n)
        ≡ (if leb n port_max then some (set_in_port addr (host.htons (n % 2 ^ 16))) else none)
  unfolding make_client
  make_client-decimal addr n h =
      let low : n % 2 ^ 32 % 2 ^ 16 ≡ n % 2 ^ 16 = omega arith in
      elim (Bool-cases (leb n port_max)) [
        | inl ok ↦
            let b : ltb port_max n ≡ false = ground arith in
            rw (strtol-decimal_exact n h, b, ok, low) refl
        | inr bad ↦
            let b : ltb port_max n ≡ true = ground arith in
            rw (strtol-decimal_exact n h, b, bad) refl
      ]

  -- Each number from 65536 to 131071 makes the client that a real port makes.
  pub make_client-wraps :
      (addr : SockAddr) (n : ℕ)
      → n < 2 ^ 16
      → make_client host addr (decimal (2 ^ 16 + n)) ≡ make_client host addr (decimal n)
  make_client-wraps addr n h =
      let a : leb (2 ^ 16 + n) port_max ≡ true = ground arith in
      let b : leb n port_max ≡ true = ground arith in
      let c : (2 ^ 16 + n) % 2 ^ 16 ≡ n % 2 ^ 16 = omega arith in
      rw
        (
          make_client-decimal addr (2 ^ 16 + n) (omega arith),
          make_client-decimal addr n (omega arith),
          a,
          b,
          c,
        )
        refl
