-- ===== src/Prelude/Lists.antt =====
-- Lists measured by native numbers, membership that can be matched, and maps over addresses.
use Prim.Native.Nat.{ℕ, zero, suc, ◌+◌, ◌≤◌}
use mathlib.Core.Path.{◌≡◌, refl, sym, ap}
use mathlib.Core.Logic.{◌≢◌, ◌⊎◌, inl, inr}
use mathlib.Core.List.{List, [], ◌∷◌, ◌++◌}
use native.Mathlib.Omega.{arith}
use psnet.Prelude.Tests.{◌==◌, if◌then◌else◌}

-- A write to one index of a map.
abbrev pub update {ℓ} : {A : Type ℓ} → (ℕ → A) → ℕ → A → ℕ → A
update f k v i = if i == k then v else f i

pub update_self {ℓ} : {A : Type ℓ} (f : ℕ → A) (k : ℕ) (v : A) → update f k v k ≡ v
update_self f k v = ground arith

pub update_other {ℓ} :
    {A : Type ℓ} (f : ℕ → A) (k : ℕ) (v : A) (i : ℕ) → i ≢ k → update f k v i ≡ f i
update_other f k v i h = ground arith

module _ {ℓ} {A : Type ℓ} where
  abbrev pub take : ℕ → List A → List A
  take zero xs = []
  take (suc n) [] = []
  take (suc n) (x ∷ xs) = x ∷ take n xs

  abbrev pub length : List A → ℕ
  length [] = 0
  length (x ∷ xs) = suc (length xs)

  pub length-append : (xs ys : List A) → length (xs ++ ys) ≡ length xs + length ys
  length-append [] ys = omega arith
  length-append (x ∷ xs) ys = omega (arith, length-append xs ys)

  pub take_whole : (n : ℕ) (s : List A) → length s ≤ n → take n s ≡ s
  take_whole zero [] h = refl
  take_whole (suc n) [] h = refl
  take_whole zero (x ∷ s) h = absurd (omega arith)
  take_whole (suc n) (x ∷ s) h = ap (λ l. x ∷ l) (take_whole n s (omega arith))

  pub take-append : (s t : List A) → take (length s) (s ++ t) ≡ s
  take-append [] t = refl
  take-append (x ∷ s) t = ap (λ l. x ∷ l) (take-append s t)

  pub length-take : (n : ℕ) (s : List A) → n ≤ length s → length (take n s) ≡ n
  length-take zero s h = refl
  length-take (suc n) [] h = absurd (omega arith)
  length-take (suc n) (x ∷ s) h = ap suc (length-take n s (omega arith))

module _ {A : Type 0} where
  abbrev pub In : A → List A → Type 0
  In a [] = ⊥
  In a (x ∷ xs) = (a ≡ x) ⊎ In a xs

  pub In-append : (a : A) (xs ys : List A) → In a (xs ++ ys) → In a xs ⊎ In a ys
  In-append a [] ys h = inr h
  In-append a (x ∷ xs) ys (inl e) = inl (inl e)
  In-append a (x ∷ xs) ys (inr h) = elim (In-append a xs ys h) [
    | inl i ↦ inl (inr i)
    | inr i ↦ inr i
  ]

  pub In-append_left : (a : A) (xs ys : List A) → In a xs → In a (xs ++ ys)
  In-append_left a [] ys h = elim h [ ]
  In-append_left a (x ∷ xs) ys (inl e) = inl e
  In-append_left a (x ∷ xs) ys (inr h) = inr (In-append_left a xs ys h)

  pub In-append_right : (a : A) (xs ys : List A) → In a ys → In a (xs ++ ys)
  In-append_right a [] ys h = h
  In-append_right a (x ∷ xs) ys h = inr (In-append_right a xs ys h)

  -- Where an element stands in a list.
  pub record Place (a : A) (xs : List A) : Type 0 where
    pub before : List A
    pub after : List A
    pub parts : xs ≡ before ++ a ∷ after

  pub In-Place : (a : A) (xs : List A) → In a xs → Place a xs
  In-Place a [] h = elim h [ ]
  In-Place a (x ∷ xs) (inl e) = record { before = []; after = xs; parts = ap (λ y. y ∷ xs) (sym e) }
  In-Place a (x ∷ xs) (inr h) =
      let p = In-Place a xs h in
      record { before = x ∷ p.before; after = p.after; parts = ap (λ ys. x ∷ ys) p.parts }

  pub In-middle : (a : A) (l r : List A) → In a (l ++ a ∷ r)
  In-middle a [] r = inl refl
  In-middle a (x ∷ l) r = inr (In-middle a l r)

  pub In-widen : (a b : A) (l r : List A) → In a (l ++ r) → In a (l ++ b ∷ r)
  In-widen a b [] r i = inr i
  In-widen a b (y ∷ l) r (inl s) = inl s
  In-widen a b (y ∷ l) r (inr i) = inr (In-widen a b l r i)

  pub In-narrow : (a b : A) (l r : List A) → In a (l ++ b ∷ r) → (a ≡ b) ⊎ In a (l ++ r)
  In-narrow a b [] r h = h
  In-narrow a b (y ∷ l) r (inl s) = inr (inl s)
  In-narrow a b (y ∷ l) r (inr i) = elim (In-narrow a b l r i) [
    | inl e ↦ inl e
    | inr j ↦ inr (inr j)
  ]
