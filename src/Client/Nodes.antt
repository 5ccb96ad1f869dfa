-- ===== src/Client/Nodes.antt =====
-- The bytes of a response of common/client.c and common/protocol.c: what the nodes of a list send,
-- and what `len--` on the last of them takes off.
use psnet.Prelude.{
  take-append, ◌-◌, ◌≤◌, ◌≡◌, refl, ◌∙◌, sym, ap, List, [], ◌∷◌, ◌++◌, map, arith, append_assoc,
  append-nil, length, take, take_whole, length-append,
}
use psnet.Libc.{Bytes, text}
use psnet.Client.{ResponseNode, trim_last, string_node}

-- The bytes that the nodes of a response have sent.
abbrev pub wire : List ResponseNode → Bytes
wire [] = []
wire (x ∷ xs) = take x.len x.chars ++ wire xs

-- Each node has the bytes that it says.
abbrev pub IsFilled : List ResponseNode → Type 0
IsFilled [] = Unit
IsFilled (x ∷ xs) = (x.len ≤ length x.chars) × IsFilled xs

pub IsFilled-append : (xs ys : List ResponseNode) → IsFilled xs → IsFilled ys → IsFilled (xs ++ ys)
IsFilled-append [] ys f g = g
IsFilled-append (x ∷ xs) ys (h, f) g = (h, IsFilled-append xs ys f g)

pub IsFilled-trim_last : (xs : List ResponseNode) → IsFilled xs → IsFilled (trim_last xs)
unfolding trim_last
IsFilled-trim_last [] f = tt
IsFilled-trim_last (x ∷ []) f = f
IsFilled-trim_last (x ∷ y ∷ []) (h, (k, _)) = (h, (omega arith, tt))
IsFilled-trim_last (x ∷ y ∷ z ∷ rest) (h, f) = (h, IsFilled-trim_last (y ∷ z ∷ rest) f)

abbrev pub joined : List Bytes → Bytes
joined [] = []
joined (x ∷ []) = x
joined (x ∷ y ∷ rest) = x ++ (text "," ++ joined (y ∷ rest))

take_all : (s : Bytes) → take (length s) s ≡ s
take_all s = take_whole (length s) s (omega arith)

-- A separator at the end is all that `len--` takes off.
cut_last : (s : Bytes) → take (length (s ++ text ",") - 1) (s ++ text ",") ≡ s
cut_last s =
    let e : length (s ++ text ",") - 1 ≡ length s = omega (arith, length-append s (text ",")) in
    ap (λ n. take n (s ++ text ",")) e ∙ take-append s (text ",")

unfoldable pub comma_node : Bytes → ResponseNode
comma_node s = string_node (s ++ text ",")

pub IsFilled-comma_node : (ss : List Bytes) → IsFilled (map comma_node ss)
unfolding comma_node
IsFilled-comma_node [] = tt
IsFilled-comma_node (s ∷ ss) = (omega arith, IsFilled-comma_node ss)

pub wire-trim_last :
    (x : ResponseNode) (ss : List Bytes)
    → wire (trim_last (x ∷ map comma_node ss)) ≡ take x.len x.chars ++ joined ss
unfolding trim_last comma_node
wire-trim_last x [] = refl
wire-trim_last x (s ∷ []) = ap (λ r. take x.len x.chars ++ r) (append-nil _ ∙ cut_last s)
wire-trim_last x (s ∷ u ∷ ss) =
    ap (λ r. take x.len x.chars ++ r)
      (wire-trim_last (comma_node s) (u ∷ ss)
        ∙ ap (λ r. r ++ joined (u ∷ ss)) (take_all (s ++ text ","))
        ∙ append_assoc s (text ",") (joined (u ∷ ss)))

pub wire-append : (xs ys : List ResponseNode) → wire (xs ++ ys) ≡ wire xs ++ wire ys
wire-append [] ys = refl
wire-append (x ∷ xs) ys =
    ap (λ r. take x.len x.chars ++ r) (wire-append xs ys)
    ∙ sym (append_assoc (take x.len x.chars) (wire xs) (wire ys))
