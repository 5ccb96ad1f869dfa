-- ===== src/Libc/Strings.antt =====
-- Strings of C and the NUL behind them.
use psnet.Prelude.{
  ℕ, zero, suc, ◌+◌, ◌/◌, ◌%◌, ◌≡◌, ◌≢◌, refl, ap, inl, inr, Bool, true, false, if◌then◌else◌,
  arith, Bool-cases, ltb, ◌==◌, [], ◌∷◌, ◌++◌,
}
use psnet.Libc.{Bytes, decimal, digits_of, c_string}

-- No NUL occurs.
abbrev pub HasNoNul : Bytes → Type 0
HasNoNul [] = Unit
HasNoNul (c ∷ s) = (c ≢ 0) × HasNoNul s

digits_of-HasNoNul : (fuel n : ℕ) (s : Bytes) → HasNoNul s → HasNoNul (digits_of fuel n s)
unfolding digits_of
digits_of-HasNoNul zero n s p = p
digits_of-HasNoNul (suc fuel) n s p = elim (Bool-cases (ltb n 10)) [
  | inl low ↦ rw low (ground arith, p)
  | inr high ↦ rw high (digits_of-HasNoNul fuel (n / 10) ((b'0' + n % 10) ∷ s) (ground arith, p))
]

pub c_string-nul : (s u : Bytes) → HasNoNul s → c_string (s ++ 0 ∷ u) ≡ s
c_string-nul [] u h = refl
c_string-nul (c ∷ s) u h =
    let n : (c == 0) ≡ false = ground (arith, h.0) in rw n (ap (λ l. c ∷ l) (c_string-nul s u h.1))

pub c_string_whole : (s : Bytes) → HasNoNul s → c_string s ≡ s
c_string_whole [] h = refl
c_string_whole (c ∷ s) h =
    let n : (c == 0) ≡ false = ground (arith, h.0) in rw n (ap (λ l. c ∷ l) (c_string_whole s h.1))

pub decimal-HasNoNul : (n : ℕ) → HasNoNul (decimal n)
unfolding decimal
decimal-HasNoNul n = digits_of-HasNoNul (suc n) n [] tt

-- Whether no NUL occurs, computed.
abbrev pub has_no_nul : Bytes → Bool
has_no_nul [] = true
has_no_nul (c ∷ s) = if c == 0 then false else has_no_nul s

pub has_no_nul-HasNoNul : (s : Bytes) → has_no_nul s ≡ true → HasNoNul s
has_no_nul-HasNoNul [] h = tt
has_no_nul-HasNoNul (c ∷ s) h = elim (Bool-cases (c == 0)) [
  | inl y ↦ absurd (let f : false ≡ true = rw y at h in cc)
  | inr n ↦ (ground arith, has_no_nul-HasNoNul s (rw n at h))
]

pub HasNoNul-append : (s t : Bytes) → HasNoNul s → HasNoNul t → HasNoNul (s ++ t)
HasNoNul-append [] t p q = q
HasNoNul-append (c ∷ s) t p q = (p.0, HasNoNul-append s t p.1 q)
