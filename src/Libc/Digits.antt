-- ===== src/Libc/Digits.antt =====
-- What `%d` prints, `strtol` reads.
use psnet.Prelude.{
  ℕ, zero, suc, ◌+◌, ◌*◌, ◌/◌, ◌%◌, ◌^◌, ◌≡◌, refl, ◌∙◌, sym, ap, ◌<◌, ◌≤◌, inl, inr, true, false,
  [], ◌∷◌, ◌++◌, append-nil, arith, Bool-cases, ltb, leb, ◌==◌, ◌&&◌, ◌||◌, ◌-◌, pos, negate, ℤ,
  to_int32, length,
}
use psnet.Libc.{
  char_at, Bytes, is_digit, scan_digits, digits_of, decimal, strtol, skip_space, convert, signed,
  clamp_pos, clamp_neg,
}

scan_digits-digit :
    (acc n : ℕ) (s : Bytes)
    → n < 10
    → scan_digits acc ((b'0' + n) ∷ s) ≡ scan_digits (acc * 10 + n) s
unfolding scan_digits
scan_digits-digit acc n s h = ground arith

ltb-lt : (a b : ℕ) → ltb a b ≡ true → a < b
ltb-lt a b h = ground arith

ltb-le : (a b : ℕ) → ltb a b ≡ false → b ≤ a
ltb-le a b h = ground arith

tenth : (n fuel : ℕ) → ltb n 10 ≡ false → n < suc fuel → n / 10 < fuel
tenth n fuel h k = omega (arith, ltb-le n 10 h)

scan_digits-digits_of :
    (fuel n : ℕ) (s : Bytes) → n < fuel → scan_digits 0 (digits_of fuel n s) ≡ scan_digits n s
unfolding digits_of
scan_digits-digits_of zero n s h = absurd (omega arith)
scan_digits-digits_of (suc fuel) n s h = elim (Bool-cases (ltb n 10)) [
  | inl low ↦
      rw low (scan_digits-digit 0 n s (ltb-lt n 10 low) ∙ ap (λ k. scan_digits k s) (omega arith))
  | inr high ↦ rw high (
      scan_digits-digits_of fuel (n / 10) ((b'0' + n % 10) ∷ s) (tenth n fuel high h)
      ∙ scan_digits-digit (n / 10) (n % 10) s (omega arith)
      ∙ ap (λ k. scan_digits k s) (omega arith))
]

-- The digits of a number begin with one.
FirstDigit : Bytes → Type 0
FirstDigit b = (c : ℕ) × (s : Bytes) × (b ≡ c ∷ s) × (b'0' ≤ c) × (c ≤ b'9')

digits_of-FirstDigit : (fuel n : ℕ) (s : Bytes) → n < fuel → FirstDigit (digits_of fuel n s)
unfolding digits_of FirstDigit
digits_of-FirstDigit zero n s h = absurd (omega arith)
digits_of-FirstDigit (suc fuel) n s h = elim (Bool-cases (ltb n 10)) [
  | inl low ↦ rw low (b'0' + n, s, refl, omega arith, omega (arith, ltb-lt n 10 low))
  | inr high ↦
      rw high (digits_of-FirstDigit fuel (n / 10) ((b'0' + n % 10) ∷ s) (tenth n fuel high h))
]

strtol-digit :
    (c : ℕ) (s : Bytes)
    → b'0' ≤ c
    → c ≤ b'9'
    → strtol (c ∷ s) ≡ (clamp_pos (scan_digits 0 (c ∷ s)).0, (scan_digits 0 (c ∷ s)).1)
unfolding strtol skip_space convert signed
strtol-digit c s h k =
    let d : is_digit c ≡ true = ground arith in
    let n : (c == b'-') ≡ false = ground arith in
    let p : (c == b'+') ≡ false = ground arith in
    let w : ((c == 32) || (leb 9 c && leb c 13)) ≡ false = ground arith in rw (w, n, p, d) refl

digits_of-append : (fuel n : ℕ) (s t : Bytes) → digits_of fuel n s ++ t ≡ digits_of fuel n (s ++ t)
unfolding digits_of
digits_of-append zero n s t = refl
digits_of-append (suc fuel) n s t = elim (Bool-cases (ltb n 10)) [
  | inl low ↦ rw low refl
  | inr high ↦ rw high (digits_of-append fuel (n / 10) ((b'0' + n % 10) ∷ s) t)
]

-- No digit comes first.
abbrev pub Stops : Bytes → Type 0
Stops [] = Unit
Stops (c ∷ s) = is_digit c ≡ false

scan_digits-Stops : (n : ℕ) (s : Bytes) → Stops s → scan_digits n s ≡ (n, s)
unfolding scan_digits
scan_digits-Stops n [] h = refl
scan_digits-Stops n (c ∷ s) h = rw h refl

strtol-decimal : (n : ℕ) (s : Bytes) → Stops s → strtol (decimal n ++ s) ≡ (clamp_pos n, s)
unfolding decimal FirstDigit
strtol-decimal n s h =
    let (c, t, e, lo, hi) = digits_of-FirstDigit (suc n) n s (omega arith) in
    let r =
      ap (scan_digits 0) (sym e)
      ∙ scan_digits-digits_of (suc n) n s (omega arith)
      ∙ scan_digits-Stops n s h in
    ap strtol (digits_of-append (suc n) n [] s ∙ e)
    ∙ strtol-digit c t lo hi
    ∙ ap (λ x. (clamp_pos x.0, x.1)) r

-- `strtol` reads the decimal digits of a number that a long holds, and stops behind them.
pub strtol-decimal-Stops :
    (n : ℕ) (s : Bytes) → Stops s → n < 2 ^ 63 → strtol (decimal n ++ s) ≡ (pos n, s)
unfolding clamp_pos
strtol-decimal-Stops n s k h =
    let b : ltb n (2 ^ 63) ≡ true = ground arith in strtol-decimal n s k ∙ rw b refl

pub is_digit-decimal : (n : ℕ) (s : Bytes) → is_digit (char_at 0 (decimal n ++ s)) ≡ true
unfolding decimal FirstDigit
is_digit-decimal n s =
    let (c, t, e, lo, hi) = digits_of-FirstDigit (suc n) n s (omega arith) in
    let d : is_digit c ≡ true = ground arith in
    ap (λ b. is_digit (char_at 0 b)) (digits_of-append (suc n) n [] s ∙ e) ∙ d

-- `strtol` reads back the decimal digits of a number that a long holds.
pub strtol-decimal_exact : (n : ℕ) → n < 2 ^ 63 → strtol (decimal n) ≡ (pos n, [])
strtol-decimal_exact n h = ap strtol (sym (append-nil (decimal n))) ∙ strtol-decimal-Stops n [] tt h

convert-digit :
    (sign : ℕ → ℤ) (s : Bytes) (c : ℕ) (t : Bytes)
    → b'0' ≤ c
    → c ≤ b'9'
    → convert sign s (c ∷ t) ≡ (sign (scan_digits 0 (c ∷ t)).0, (scan_digits 0 (c ∷ t)).1)
unfolding convert
convert-digit sign s c t h k = let d : is_digit c ≡ true = ground arith in rw d refl

clamp_neg-within : (n : ℕ) → n ≤ 2 ^ 63 → clamp_neg n ≡ negate n
unfolding clamp_neg
clamp_neg-within n h = let b : leb n (2 ^ 63) ≡ true = ground arith in rw b refl

strtol-minus : (s : Bytes) → strtol (b'-' ∷ s) ≡ convert clamp_neg (b'-' ∷ s) s
unfolding strtol skip_space signed
strtol-minus s = refl

-- A minus sign and digits.
pub strtol-decimal_negative : (n : ℕ) → n ≤ 2 ^ 63 → strtol (b'-' ∷ decimal n) ≡ (negate n, [])
unfolding decimal FirstDigit
strtol-decimal_negative n h =
    let (c, t, e, lo, hi) = digits_of-FirstDigit (suc n) n [] (omega arith) in
    let r =
      ap (scan_digits 0) (sym e)
      ∙ scan_digits-digits_of (suc n) n [] (omega arith)
      ∙ scan_digits-Stops n [] tt in
    strtol-minus (decimal n)
    ∙ ap (convert clamp_neg (b'-' ∷ decimal n)) e
    ∙ convert-digit clamp_neg (b'-' ∷ decimal n) c t lo hi
    ∙ ap (λ x. (clamp_neg x.0, x.1)) r
    ∙ ap (λ v. (v, [])) (clamp_neg-within n h)

pub to_int32-negate : (n : ℕ) → 0 < n → n ≤ 2 ^ 31 → to_int32 (negate n) ≡ negate n
to_int32-negate n h k =
    let p : ltb 0 n ≡ true = ground arith in
    let e : 2 ^ 32 - 1 - (n - 1) % 2 ^ 32 ≡ 2 ^ 32 - n = omega arith in
    let b : ltb (2 ^ 32 - n) (2 ^ 31) ≡ false = ground arith in
    let f : 2 ^ 32 - 1 - (2 ^ 32 - n) ≡ n - 1 = omega arith in rw (p, e, b, f) refl

pub to_int32_pos : (n : ℕ) → n < 2 ^ 31 → to_int32 (pos n) ≡ pos n
to_int32_pos n h =
    let e : n % 2 ^ 32 ≡ n = omega arith in
    let b : ltb n (2 ^ 31) ≡ true = ground arith in rw (e, b) refl

abbrev pub pow10 : ℕ → ℕ
pow10 zero = 1
pow10 (suc k) = 10 * pow10 k

length-digits_of :
    (k fuel n : ℕ) (s : Bytes) → n < pow10 (suc k) → length (digits_of fuel n s) ≤ suc k + length s
unfolding digits_of
length-digits_of k zero n s h = omega arith
length-digits_of zero (suc fuel) n s h =
    let low : ltb n 10 ≡ true = ground arith in rw low (omega arith)
length-digits_of (suc k) (suc fuel) n s h = elim (Bool-cases (ltb n 10)) [
  | inl low ↦ rw low (omega arith)
  | inr high ↦
      rw high (omega (arith, length-digits_of k fuel (n / 10) ((b'0' + n % 10) ∷ s) (omega arith)))
]

-- A number below 10 to the k has k digits at most.
pub length-decimal : (k n : ℕ) → n < pow10 (suc k) → length (decimal n) ≤ suc k
unfolding decimal
length-decimal k n h = omega (arith, length-digits_of k (suc n) n [] h)

pow10_pos : (k : ℕ) → 0 < pow10 k
pow10_pos zero = omega arith
pow10_pos (suc k) = omega (arith, pow10_pos k)

ltb_above : (n : ℕ) {p : ℕ} → 0 < p → 10 * p ≤ n → ltb n 10 ≡ false
ltb_above n h k = let e : 10 ≤ n = omega arith in ground arith

length-digits_of_ge :
    (k fuel n : ℕ) (s : Bytes)
    → n < fuel
    → pow10 k ≤ n
    → suc k + length s ≤ length (digits_of fuel n s)
unfolding digits_of
length-digits_of_ge k zero n s f h = absurd (omega arith)
length-digits_of_ge zero (suc fuel) n s f h = elim (Bool-cases (ltb n 10)) [
  | inl low ↦ rw low (omega arith)
  | inr high ↦ rw high (
      let t = tenth n fuel high f in
      let more =
        length-digits_of_ge zero fuel (n / 10) ((b'0' + n % 10) ∷ s) t
          (omega (arith, ltb-le n 10 high)) in
      omega (arith, more))
]
length-digits_of_ge (suc k) (suc fuel) n s f h =
    let high : ltb n 10 ≡ false = ltb_above n (pow10_pos k) h in
    rw high (
      let t = tenth n fuel high f in
      let more = length-digits_of_ge k fuel (n / 10) ((b'0' + n % 10) ∷ s) t (omega arith) in
      omega (arith, more))

-- A number from 10 to the k on has more than k digits.
pub length-decimal_ge : (k n : ℕ) → pow10 k ≤ n → suc k ≤ length (decimal n)
unfolding decimal
length-decimal_ge k n h = omega (arith, length-digits_of_ge k (suc n) n [] (omega arith) h)
