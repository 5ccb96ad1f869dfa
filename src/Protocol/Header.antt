-- ===== src/Protocol/Header.antt =====
-- The header that `make_response_with_body` of common/protocol.c prints: how long it can be, and
-- which bytes it has.
use psnet.Prelude.{
  ℕ, zero, suc, ◌+◌, ◌/◌, ◌%◌, ◌^◌, ◌≤◌, ◌<◌, ◌≡◌, refl, sym, ap, inl, inr, [], ◌∷◌, ◌++◌, arith,
  Bool-cases, ltb, length, length-append, append_assoc,
}
use psnet.Libc.{Bytes, text, digits_of, decimal}
use psnet.Libc.Digits.{length-decimal}
use psnet.Network.Frame.{delimiter, IsPlain, is_plain-IsPlain}
use psnet.Protocol.{header_text}

digits_of-IsPlain : (fuel n : ℕ) (s : Bytes) → IsPlain s → IsPlain (digits_of fuel n s)
unfolding digits_of
digits_of-IsPlain zero n s p = p
digits_of-IsPlain (suc fuel) n s p = elim (Bool-cases (ltb n 10)) [
  | inl low ↦ rw low (ground arith, p)
  | inr high ↦ rw high (digits_of-IsPlain fuel (n / 10) ((b'0' + n % 10) ∷ s) (ground arith, p))
]

pub IsPlain-append : (s t : Bytes) → IsPlain s → IsPlain t → IsPlain (s ++ t)
IsPlain-append [] t p q = q
IsPlain-append (c ∷ s) t p q = (p.0, IsPlain-append s t p.1 q)

unfoldable pub body_of_header : ℕ → Bytes
body_of_header len = text "{\"status\":\"okay\",\"size\":" ++ (decimal len ++ text "}")

pub header_parts : (len : ℕ) → header_text len ≡ body_of_header len ++ delimiter
unfolding header_text body_of_header
header_parts len =
    ap (λ l. text "{\"status\":\"okay\",\"size\":" ++ l)
      (sym (append_assoc (decimal len) (text "}") delimiter))

pub decimal-IsPlain : (n : ℕ) → IsPlain (decimal n)
unfolding decimal
decimal-IsPlain n = digits_of-IsPlain (suc n) n [] tt

pub body_of_header-IsPlain : (len : ℕ) → IsPlain (body_of_header len)
unfolding body_of_header
body_of_header-IsPlain len =
    IsPlain-append (text "{\"status\":\"okay\",\"size\":") (decimal len ++ text "}")
      (is_plain-IsPlain (text "{\"status\":\"okay\",\"size\":") refl)
      (IsPlain-append (decimal len) (text "}") (decimal-IsPlain len)
        (is_plain-IsPlain (text "}") refl))

-- 20 digits are enough for a size_t.
pub length-header : (len : ℕ) → len < 2 ^ 64 → length (body_of_header len) ≤ 45
unfolding body_of_header decimal
length-header len h =
    let digits = length-decimal 19 len (omega arith) in
    let rest = length-append (decimal len) (text "}") in omega (arith, digits, rest)
