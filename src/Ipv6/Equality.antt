-- ===== src/Ipv6/Equality.antt =====
-- `sockaddr_equals` of include/ipv6.h is equality of family, address and port.
use psnet.Prelude.{◌≡◌, refl, true, [], ◌∷◌, arith}
use psnet.Libc.{Bytes, bytes_eq}
use psnet.Ipv6.{SockAddr, inet, inet6, other, sockaddr_equals}

pub bytes_eq-eq : (xs ys : Bytes) → bytes_eq xs ys ≡ true → xs ≡ ys
unfolding bytes_eq
bytes_eq-eq [] [] h = refl
bytes_eq-eq [] (y ∷ ys) h = cc
bytes_eq-eq (x ∷ xs) [] h = cc
bytes_eq-eq (x ∷ xs) (y ∷ ys) h = ground (arith, bytes_eq-eq xs ys)

pub bytes_eq_refl : (xs : Bytes) → bytes_eq xs xs ≡ true
unfolding bytes_eq
bytes_eq_refl [] = refl
bytes_eq_refl (x ∷ xs) = ground (arith, bytes_eq_refl xs)

abbrev pub IsInternet : SockAddr → Type 0
IsInternet (other f c r) = ⊥
IsInternet _ = Unit

pub sockaddr_equals-eq : (a b : SockAddr) → sockaddr_equals a b ≡ true → a ≡ b
unfolding sockaddr_equals
sockaddr_equals-eq (inet a p) (inet b q) h = ground arith
sockaddr_equals-eq (inet6 a p) (inet6 b q) h = ground (arith, bytes_eq-eq a b)
sockaddr_equals-eq (inet a p) (inet6 b q) h = cc
sockaddr_equals-eq (inet a p) (other g c r) h = cc
sockaddr_equals-eq (inet6 a p) (inet b q) h = cc
sockaddr_equals-eq (inet6 a p) (other g c r) h = cc
sockaddr_equals-eq (other f c r) (inet b q) h = cc
sockaddr_equals-eq (other f c r) (inet6 b q) h = cc
sockaddr_equals-eq (other f c r) (other g e s) h = cc

pub sockaddr_equals_refl : (a : SockAddr) → IsInternet a → sockaddr_equals a a ≡ true
unfolding sockaddr_equals
sockaddr_equals_refl (inet a p) i = ground arith
sockaddr_equals_refl (inet6 a p) i = ground (arith, bytes_eq_refl a)
sockaddr_equals_refl (other f c r) i = absurd i

pub bytes_eq_symm : (xs ys : Bytes) → bytes_eq xs ys ≡ bytes_eq ys xs
unfolding bytes_eq
bytes_eq_symm [] [] = refl
bytes_eq_symm [] (y ∷ ys) = refl
bytes_eq_symm (x ∷ xs) [] = refl
bytes_eq_symm (x ∷ xs) (y ∷ ys) = ground (arith, bytes_eq_symm xs ys)

pub sockaddr_equals_symm : (a b : SockAddr) → sockaddr_equals a b ≡ sockaddr_equals b a
unfolding sockaddr_equals
sockaddr_equals_symm (inet a p) (inet b q) = ground arith
sockaddr_equals_symm (inet6 a p) (inet6 b q) = ground (arith, bytes_eq_symm a b)
sockaddr_equals_symm (inet a p) (inet6 b q) = refl
sockaddr_equals_symm (inet a p) (other g c r) = refl
sockaddr_equals_symm (inet6 a p) (inet b q) = refl
sockaddr_equals_symm (inet6 a p) (other g c r) = refl
sockaddr_equals_symm (other f c r) (inet b q) = refl
sockaddr_equals_symm (other f c r) (inet6 b q) = refl
sockaddr_equals_symm (other f c r) (other g e s) = refl
