-- ===== src/Network/Read.antt =====
-- `tcp_read_bytes` of common/network.c gathers what the kernel delivers in pieces.
use psnet.Prelude.{
  ◌+◌, ◌-◌, ◌≤◌, ◌<◌, ◌≡◌, ◌∙◌, sym, ap, true, false, arith, some, List, [], ◌∷◌, ◌++◌,
  append_assoc, append-nil, ltb, length, length-append, take_whole, pos,
}
use psnet.Libc.{Bytes}
use psnet.Network.{Chunk, chunk, chunk_failed, read_loop, tcp_read_bytes}

-- The pieces that arrive have a byte at least, and make up the bytes.
abbrev pub Pieces : List Chunk → Bytes → Type 0
Pieces [] s = s ≡ []
Pieces (chunk c ∷ rest) s = (0 < length c) × (t : Bytes) × (s ≡ c ++ t) × Pieces rest t
Pieces (chunk_failed errno ∷ rest) s = ⊥

read_loop-Pieces :
    (chunks : List Chunk) (s buf : Bytes)
    → Pieces chunks s
    → read_loop chunks (length buf + length s) buf ≡ some (pos (length buf + length s), buf ++ s)
unfolding read_loop
read_loop-Pieces [] s buf h =
    let n : length s ≡ 0 = ap length h in
    let b : ltb (length buf) (length buf + length s) ≡ false = ground (arith, n) in
    let e : length buf ≡ length buf + length s = omega (arith, n) in
    rw b (λ i. some (pos (e i), (sym (append-nil buf) ∙ ap (λ l. buf ++ l) (sym h)) i))
read_loop-Pieces (chunk_failed errno ∷ rest) s buf h = absurd h
read_loop-Pieces (chunk [] ∷ rest) s buf (p, t, e, q) = absurd (omega (arith, p))
read_loop-Pieces (chunk (c ∷ cs) ∷ rest) s buf (p, t, e, q) =
    let n : length s ≡ length (c ∷ cs) + length t = ap length e ∙ length-append (c ∷ cs) t in
    let b : ltb (length buf) (length buf + length s) ≡ true = ground (arith, n) in
    let room : length (c ∷ cs) ≤ length buf + length s - length buf = omega (arith, n) in
    let m : length buf + length s ≡ length (buf ++ c ∷ cs) + length t =
      omega (arith, n, length-append buf (c ∷ cs)) in
    rw (b, take_whole (length buf + length s - length buf) (c ∷ cs) room)
      (ap (λ k. read_loop rest k (buf ++ c ∷ cs)) m
        ∙ read_loop-Pieces rest t (buf ++ c ∷ cs) q
        ∙ (λ i. some (pos (sym m i), (append_assoc buf (c ∷ cs) t ∙ ap (λ l. buf ++ l) (sym e)) i)))

-- `tcp_read_bytes` of as many bytes as there are in the pieces that arrive returns their number and
-- puts the pieces together, in order.
pub tcp_read_bytes-Pieces :
    (chunks : List Chunk) (s : Bytes)
    → Pieces chunks s
    → tcp_read_bytes chunks (length s) ≡ some (pos (length s), s)
unfolding tcp_read_bytes
tcp_read_bytes-Pieces chunks s h =
    let e : length s ≡ 0 + length s = omega arith in
    ap (λ k. read_loop chunks k []) e
    ∙ read_loop-Pieces chunks s [] h
    ∙ ap (λ k. some (pos k, s)) (sym e)
