-- ===== src/DeltaList/Stays.antt =====
-- How long an item of a delta list of common/deltalist.c stays.
use psnet.Prelude.{
  ℕ, suc, ◌-◌, ◌<◌, ◌≡◌, refl, ◌∙◌, sym, ap, subst, arith, true, false, Bool-cases, inl, inr, List,
  [], ◌∷◌, ◌++◌, map, ◌==◌, In,
}
use psnet.DeltaList.{Ops}
use psnet.DeltaList.Timed.{without, renew, has, older, drop_expired, elapse}

module _ {D : Type 0} where
  -- The item is there, with more than `k` ticks left.
  abbrev pub Stays : D → ℕ → List (D × ℕ) → Type 0
  Stays d k ps = (n : ℕ) × In (d, n) ps × (k < n)

  In-drop_expired : (q : D × ℕ) (ps : List (D × ℕ)) → In q ps → 0 < q.1 → In q (drop_expired ps)
  In-drop_expired q [] i h = i
  In-drop_expired q (p ∷ ps) (inl e) h =
      let l : q.1 ≡ p.1 = ap (λ r. r.1) e in
      let live : (p.1 == 0) ≡ false = ground arith in rw live (inl e)
  In-drop_expired q (p ∷ ps) (inr i) h = elim (Bool-cases (p.1 == 0)) [
    | inl y ↦ rw y (In-drop_expired q ps i h)
    | inr f ↦ rw f (inr i)
  ]

  In-older : (q : D × ℕ) (ps : List (D × ℕ)) → In q ps → In (older q) (map older ps)
  In-older q [] i = i
  In-older q (p ∷ ps) (inl e) = inl (ap older e)
  In-older q (p ∷ ps) (inr i) = inr (In-older q ps i)

  pub elapse-Stays :
      (d : D) (k : ℕ) (ps : List (D × ℕ)) → Stays d (suc k) ps → Stays d k (elapse ps)
  elapse-Stays d k ps (n, i, h) = (
    n - 1,
    In-drop_expired (d, n - 1) (map older ps) (In-older (d, n) ps i) (omega arith),
    omega arith,
  )

  In-end : (q : D × ℕ) (ps : List (D × ℕ)) → In q (ps ++ q ∷ [])
  In-end q [] = inl refl
  In-end q (p ∷ ps) = inr (In-end q ps)

  In-left : (q p : D × ℕ) (ps : List (D × ℕ)) → In q ps → In q (ps ++ p ∷ [])
  In-left q p [] i = absurd i
  In-left q p (r ∷ ps) (inl e) = inl e
  In-left q p (r ∷ ps) (inr i) = inr (In-left q p ps i)

module _ {D : Type 0} (ops : Ops D) where
  In-without :
      (d e : D) (n : ℕ) (ps : List (D × ℕ))
      → ops.equals d e ≡ false
      → In (d, n) ps
      → In (d, n) (without ops e ps)
  In-without d e n [] h i = i
  In-without d e n (p ∷ ps) h (inl s) =
      let f : ops.equals p.0 e ≡ false = sym (ap (λ q. ops.equals q.0 e) s) ∙ h in rw f (inl s)
  In-without d e n (p ∷ ps) h (inr i) = elim (Bool-cases (ops.equals p.0 e)) [
    | inl y ↦ rw y i
    | inr f ↦ rw f (inr (In-without d e n ps h i))
  ]

  pub renewed-Stays : (d : D) (k n : ℕ) (ps : List (D × ℕ)) → k < n → Stays d k (renew ops d n ps)
  renewed-Stays d k n ps h = (n, In-end (d, n) (without ops d ps), h)

  -- To renew an item leaves the others as they are.
  pub renew-Stays :
      ((a b : D) → ops.equals a b ≡ true → a ≡ b)
      → (d e : D) (k n : ℕ) (ps : List (D × ℕ)) → Stays d k ps
      → k < n
      → Stays d k (renew ops e n ps)
  renew-Stays same d e k n ps (m, i, h) l = elim (Bool-cases (ops.equals d e)) [
    | inl y ↦
        subst (λ c. Stays c k (renew ops e n ps)) (sym (same d e y)) (renewed-Stays e k n ps l)
    | inr f ↦ (m, In-left (d, m) (e, n) (without ops e ps) (In-without d e m ps f i), h)
  ]

  pub Stays-has :
      (d : D) (k : ℕ) (ps : List (D × ℕ))
      → ops.equals d d ≡ true
      → Stays d k ps
      → has ops d ps ≡ true
  Stays-has d k [] self (n, i, h) = absurd i
  Stays-has d k (p ∷ ps) self (n, inl e, h) =
      let y : ops.equals p.0 d ≡ true = sym (ap (λ q. ops.equals q.0 d) e) ∙ self in rw y refl
  Stays-has d k (p ∷ ps) self (n, inr i, h) = elim (Bool-cases (ops.equals p.0 d)) [
    | inl y ↦ rw y refl
    | inr f ↦ rw f (Stays-has d k ps self (n, i, h))
  ]
