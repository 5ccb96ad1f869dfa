-- ===== src/Network/Send.antt =====
-- `tcp_send_bytes` of common/network.c sends the whole buffer, or tells why not.
use psnet.Prelude.{
  ℕ, zero, suc, ◌+◌, ◌-◌, ◌≤◌, ◌<◌, ◌≡◌, refl, ◌∙◌, sym, ap, ◌⊎◌, inl, inr, true, false, Option,
  none, some, List, [], ◌∷◌, ◌++◌, arith, Bool-cases, append_assoc, append-nil, ltb, length, take,
  take_whole, ℤ, pos, negate,
}
use psnet.Libc.{Bytes}
use psnet.Network.{Sent, wrote, send_failed, drop, min, send_loop, tcp_send_bytes}

-- Every call of send takes a byte at least.
abbrev pub IsWilling : List Sent → Type 0
IsWilling [] = Unit
IsWilling (wrote capacity ∷ answers) = (0 < capacity) × IsWilling answers
IsWilling (send_failed errno ∷ answers) = ⊥

take_none : (n : ℕ) → take {A = ℕ} n [] ≡ []
take_none zero = refl
take_none (suc n) = refl

drop_none : (n : ℕ) → drop n [] ≡ []
drop_none zero = refl
drop_none (suc n) = refl

take-drop : (b r : ℕ) (s : Bytes) → take b s ++ take r (drop b s) ≡ take (b + r) s
take-drop zero r s = let e : r ≡ 0 + r = omega arith in ap (λ n. take n s) e
take-drop (suc b) r [] = take_none r ∙ sym (take_none (suc b + r))
take-drop (suc b) r (x ∷ s) =
    let e : suc (b + r) ≡ suc b + r = omega arith in
    ap (λ l. x ∷ l) (take-drop b r s) ∙ ap (λ n. take n (x ∷ s)) e

grown :
    (out buf : Bytes) (b r : ℕ)
    → (out ++ take b buf) ++ take r (drop b buf) ≡ out ++ take (b + r) buf
grown out buf b r =
    append_assoc out (take b buf) (take r (drop b buf)) ∙ ap (λ l. out ++ l) (take-drop b r buf)

-- What a return of `tcp_send_bytes` means.
abbrev pub Outcome : Bytes → Bytes → ℤ × Bytes → Type 0
Outcome buf out r =
    (r ≡ (pos (length buf), out ++ buf))
    ⊎ ((errno : ℕ) × (k : ℕ) × (r ≡ (negate errno, out ++ take k buf)) × (k < length buf))

send_loop-done :
    (answers : List Sent) (buf : Bytes) (bsent : ℕ) (out : Bytes)
    → ltb bsent (length buf) ≡ false
    → send_loop answers buf bsent out ≡ some (pos bsent, out)
unfolding send_loop
send_loop-done [] buf bsent out h = rw h refl
send_loop-done (wrote c ∷ answers) buf bsent out h = rw h refl
send_loop-done (send_failed e ∷ answers) buf bsent out h = rw h refl

send_loop-wrote :
    (c : ℕ) (answers : List Sent) (buf : Bytes) (bsent : ℕ) (out : Bytes)
    → ltb bsent (length buf) ≡ true
    → send_loop (wrote c ∷ answers) buf bsent (out ++ take bsent buf)
      ≡ send_loop answers buf
          (bsent + min c (length buf - bsent))
          (out ++ take (bsent + min c (length buf - bsent)) buf)
unfolding send_loop
send_loop-wrote c answers buf bsent out h = rw h (
    ap (send_loop answers buf (bsent + min c (length buf - bsent)))
      (grown out buf bsent (min c (length buf - bsent))))

all_sent :
    (answers : List Sent) (buf : Bytes) (bsent : ℕ) (out : Bytes)
    → bsent ≤ length buf
    → ltb bsent (length buf) ≡ false
    → send_loop answers buf bsent (out ++ take bsent buf) ≡ some (pos (length buf), out ++ buf)
all_sent answers buf bsent out le h =
    let e : bsent ≡ length buf = ground arith in
    send_loop-done answers buf bsent (out ++ take bsent buf) h
    ∙ ap some (
        ap (λ n. (pos n, out ++ take n buf)) e
        ∙ ap (λ l. (pos (length buf), out ++ l)) (take_whole (length buf) buf (omega arith)))

send_loop_complete :
    (answers : List Sent) (buf : Bytes) (bsent : ℕ) (out : Bytes)
    → bsent ≤ length buf
    → length buf - bsent ≤ length answers
    → IsWilling answers
    → send_loop answers buf bsent (out ++ take bsent buf) ≡ some (pos (length buf), out ++ buf)
send_loop_complete [] buf bsent out le enough w = all_sent [] buf bsent out le (ground arith)
send_loop_complete (send_failed e ∷ answers) buf bsent out le enough w = absurd w
send_loop_complete (wrote c ∷ answers) buf bsent out le enough w =
    let n : bsent + min c (length buf - bsent) ≤ length buf = ground arith in
    elim (Bool-cases (ltb bsent (length buf))) [
      | inr h ↦ all_sent (wrote c ∷ answers) buf bsent out le h
      | inl h ↦
          send_loop-wrote c answers buf bsent out h
          ∙ send_loop_complete answers buf (bsent + min c (length buf - bsent)) out n
              (let rv = min c (length buf - bsent) in
                let some_sent : 0 < rv = ground (arith, w.0) in omega (arith, some_sent, enough))
              w.1
    ]

-- `tcp_send_bytes` sends the whole buffer, in order, and returns its length, if every call of send
-- takes a byte at least: then as many calls as there are bytes are enough.
pub tcp_send_bytes_complete :
    (answers : List Sent) (buf out : Bytes)
    → length buf ≤ length answers
    → IsWilling answers
    → tcp_send_bytes answers buf out ≡ some (pos (length buf), out ++ buf)
unfolding tcp_send_bytes
tcp_send_bytes_complete answers buf out enough w =
    ap (send_loop answers buf 0) (sym (append-nil out))
    ∙ send_loop_complete answers buf 0 out (omega arith) (omega arith) w

send_loop-failed :
    (errno : ℕ) (answers : List Sent) (buf : Bytes) (bsent : ℕ) (out : Bytes)
    → ltb bsent (length buf) ≡ true
    → send_loop (send_failed errno ∷ answers) buf bsent out ≡ some (negate errno, out)
unfolding send_loop
send_loop-failed errno answers buf bsent out h = rw h refl

send_loop-silent :
    (buf : Bytes) (bsent : ℕ) (out : Bytes)
    → ltb bsent (length buf) ≡ true
    → send_loop [] buf bsent out ≡ none
unfolding send_loop
send_loop-silent buf bsent out h = rw h refl

some-injective : (x y : ℤ × Bytes) → ◌≡◌ {A = Option (ℤ × Bytes)} (some x) (some y) → x ≡ y
some-injective x y e = cc

send_loop-Outcome :
    (answers : List Sent) (buf : Bytes) (bsent : ℕ) (out : Bytes) (r : ℤ × Bytes)
    → bsent ≤ length buf
    → send_loop answers buf bsent (out ++ take bsent buf) ≡ some r
    → Outcome buf out r
send_loop-Outcome [] buf bsent out r le e = elim (Bool-cases (ltb bsent (length buf))) [
  | inr h ↦ inl (some-injective r _ (sym e ∙ all_sent [] buf bsent out le h))
  | inl h ↦
      let f : none ≡ some r = sym (send_loop-silent buf bsent (out ++ take bsent buf) h) ∙ e in
      absurd (let g = f in cc)
]
send_loop-Outcome (send_failed errno ∷ answers) buf bsent out r le e =
    elim (Bool-cases (ltb bsent (length buf))) [
      | inr h ↦
          inl
            (some-injective r _ (sym e ∙ all_sent (send_failed errno ∷ answers) buf bsent out le h))
      | inl h ↦
          let f = sym e ∙ send_loop-failed errno answers buf bsent (out ++ take bsent buf) h in
          inr (errno, bsent, some-injective r _ f, ground arith)
    ]
send_loop-Outcome (wrote c ∷ answers) buf bsent out r le e =
    let n : bsent + min c (length buf - bsent) ≤ length buf = ground arith in
    elim (Bool-cases (ltb bsent (length buf))) [
      | inr h ↦ inl (some-injective r _ (sym e ∙ all_sent (wrote c ∷ answers) buf bsent out le h))
      | inl h ↦
          send_loop-Outcome answers buf (bsent + min c (length buf - bsent)) out r n
            (sym (send_loop-wrote c answers buf bsent out h) ∙ e)
    ]

-- Whatever the calls of send do, when `tcp_send_bytes` returns, it has sent the whole buffer and
-- returns its length, or it has sent a proper prefix of the buffer and returns an error.
pub tcp_send_bytes-Outcome :
    (answers : List Sent) (buf out : Bytes) (r : ℤ × Bytes)
    → tcp_send_bytes answers buf out ≡ some r
    → Outcome buf out r
unfolding tcp_send_bytes
tcp_send_bytes-Outcome answers buf out r e =
    send_loop-Outcome answers buf 0 out r (omega arith)
      (ap (send_loop answers buf 0) (append-nil out) ∙ e)
