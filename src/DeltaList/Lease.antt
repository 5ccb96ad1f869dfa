-- ===== src/DeltaList/Lease.antt =====
-- How many turns of the clock are left to an item of a list that stands for a table of
-- common/deltalist.c, and what the operations make of that number, whatever else is in the list.
use psnet.Prelude.{
  ℕ, ◌-◌, ◌≡◌, refl, ◌∙◌, sym, ap, subst, arith, inl, inr, true, false, Bool-cases, List, [], ◌∷◌,
  ◌++◌, map, ◌==◌, if◌then◌else◌, ltb, In, ◌<◌,
}
use psnet.DeltaList.{Ops}
use psnet.DeltaList.Queue.{Entry}
use psnet.DeltaList.Timed.{item, older, drop_expired, elapse, without, renew, has}

module _ {D : Type 0} (ops : Ops D) where
  abbrev pub held : D → List (D × ℕ) → ℕ
  held c [] = 0
  held c (p ∷ ps) = if ops.equals p.0 c then p.1 else held c ps

  -- No item is there twice.
  abbrev pub Unique : List (D × ℕ) → Type 0
  Unique [] = Unit
  Unique (p ∷ ps) = (has ops p.0 ps ≡ false) × Unique ps

  held_absent : (c : D) (ps : List (D × ℕ)) → has ops c ps ≡ false → held c ps ≡ 0
  held_absent c [] h = refl
  held_absent c (p ∷ ps) h = elim (Bool-cases (ops.equals p.0 c)) [
    | inl y ↦ absurd (let f : true ≡ false = rw y at h in cc)
    | inr n ↦ rw n (held_absent c ps (rw n at h))
  ]

  held_if : (c : D) (ps : List (D × ℕ)) → (if has ops c ps then held c ps else 0) ≡ held c ps
  held_if c ps = elim (Bool-cases (has ops c ps)) [
    | inl y ↦ rw y refl
    | inr n ↦ rw n (sym (held_absent c ps n))
  ]

  -- An item that a table holds has a turn left.
  pub has-held :
      (c : D) (es : List (Entry D))
      → ((e : Entry D) → In e es → 0 < e.left)
      → has ops c (map item es) ≡ ltb 0 (held c (map item es))
  has-held c [] live = refl
  has-held c (e ∷ es) live = elim (Bool-cases (ops.equals e.value c)) [
    | inl y ↦ let l = live e (inl refl) in rw y (ground arith)
    | inr n ↦ rw n (has-held c es (λ f i. live f (inr i)))
  ]

  has-older : (c : D) (ps : List (D × ℕ)) → has ops c (map older ps) ≡ has ops c ps
  has-older c [] = refl
  has-older c (p ∷ ps) = ap (λ b. if ops.equals p.0 c then true else b) (has-older c ps)

  held-older : (c : D) (ps : List (D × ℕ)) → held c (map older ps) ≡ held c ps - 1
  held-older c [] = refl
  held-older c (p ∷ ps) = elim (Bool-cases (ops.equals p.0 c)) [
    | inl y ↦ rw y refl
    | inr n ↦ rw n (held-older c ps)
  ]

  Unique-older : (ps : List (D × ℕ)) → Unique ps → Unique (map older ps)
  Unique-older [] u = tt
  Unique-older (p ∷ ps) (h, u) = (has-older p.0 ps ∙ h, Unique-older ps u)

  has-drop_expired :
      (c : D) (ps : List (D × ℕ)) → has ops c ps ≡ false → has ops c (drop_expired ps) ≡ false
  has-drop_expired c [] h = refl
  has-drop_expired c (p ∷ ps) h = elim (Bool-cases (p.1 == 0)) [
    | inr n ↦ rw n h
    | inl z ↦ elim (Bool-cases (ops.equals p.0 c)) [
      | inl y ↦ absurd (let f : true ≡ false = rw y at h in cc)
      | inr m ↦ rw z (has-drop_expired c ps (rw m at h))
    ]
  ]

  Unique-drop_expired : (ps : List (D × ℕ)) → Unique ps → Unique (drop_expired ps)
  Unique-drop_expired [] u = tt
  Unique-drop_expired (p ∷ ps) (h, u) = elim (Bool-cases (p.1 == 0)) [
    | inl z ↦ rw z (Unique-drop_expired ps u)
    | inr n ↦ rw n (h, u)
  ]

  pub Unique-elapse : (ps : List (D × ℕ)) → Unique ps → Unique (elapse ps)
  Unique-elapse ps u = Unique-drop_expired (map older ps) (Unique-older ps u)

  has-without :
      (a c : D) (ps : List (D × ℕ)) → has ops a ps ≡ false → has ops a (without ops c ps) ≡ false
  has-without a c [] h = refl
  has-without a c (p ∷ ps) h = elim (Bool-cases (ops.equals p.0 a)) [
    | inl y ↦ absurd (let f : true ≡ false = rw y at h in cc)
    | inr n ↦ elim (Bool-cases (ops.equals p.0 c)) [
      | inl y ↦ rw y (rw n at h)
      | inr m ↦ rw (m, n) (has-without a c ps (rw n at h))
    ]
  ]

  pub Unique-without : (c : D) (ps : List (D × ℕ)) → Unique ps → Unique (without ops c ps)
  Unique-without c [] u = tt
  Unique-without c (p ∷ ps) (h, u) = elim (Bool-cases (ops.equals p.0 c)) [
    | inl y ↦ rw y u
    | inr n ↦ rw n (has-without p.0 c ps h, Unique-without c ps u)
  ]

  held-append :
      (c d : D) (n : ℕ) (ps : List (D × ℕ))
      → held c (ps ++ (d, n) ∷ [])
        ≡ (if has ops c ps then held c ps else if ops.equals d c then n else 0)
  held-append c d n [] = refl
  held-append c d n (p ∷ ps) = elim (Bool-cases (ops.equals p.0 c)) [
    | inl y ↦ rw y refl
    | inr m ↦ rw m (held-append c d n ps)
  ]

  has-append :
      (c d : D) (n : ℕ) (ps : List (D × ℕ))
      → ops.equals d c ≡ false
      → has ops c ps ≡ false
      → has ops c (ps ++ (d, n) ∷ []) ≡ false
  has-append c d n [] h k = rw h refl
  has-append c d n (p ∷ ps) h k = elim (Bool-cases (ops.equals p.0 c)) [
    | inl y ↦ absurd (let f : true ≡ false = rw y at k in cc)
    | inr m ↦ rw m (has-append c d n ps h (rw m at k))
  ]

  module _ (same : (a b : D) → ops.equals a b ≡ true → a ≡ b) where
    swapped : (a b : D) → ops.equals a b ≡ true → ops.equals b a ≡ true
    swapped a b y =
        let e = same a b y in
        subst (λ z. ops.equals b z ≡ true) (sym e) (subst (λ z. ops.equals z b ≡ true) e y)

    apart : (a b : D) → ops.equals a b ≡ false → ops.equals b a ≡ false
    apart a b n = elim (Bool-cases (ops.equals b a)) [
      | inr m ↦ m
      | inl y ↦ absurd (let f : false ≡ true = sym n ∙ swapped b a y in cc)
    ]

    Unique-append :
        (d : D) (n : ℕ) (ps : List (D × ℕ))
        → has ops d ps ≡ false
        → Unique ps
        → Unique (ps ++ (d, n) ∷ [])
    Unique-append d n [] h u = (refl, tt)
    Unique-append d n (p ∷ ps) h (k, u) = elim (Bool-cases (ops.equals p.0 d)) [
      | inl y ↦ absurd (let f : true ≡ false = rw y at h in cc)
      | inr m ↦ (has-append p.0 d n ps (apart p.0 d m) k, Unique-append d n ps (rw m at h) u)
    ]

    gone : (c : D) (ps : List (D × ℕ)) → Unique ps → has ops c (without ops c ps) ≡ false
    gone c [] u = refl
    gone c (p ∷ ps) (h, u) = elim (Bool-cases (ops.equals p.0 c)) [
      | inl y ↦ rw y (subst (λ z. has ops z ps ≡ false) (same p.0 c y) h)
      | inr n ↦ rw (n, n) (gone c ps u)
    ]

    pub Unique-renew : (c : D) (n : ℕ) (ps : List (D × ℕ)) → Unique ps → Unique (renew ops c n ps)
    Unique-renew c n ps u =
        Unique-append c n (without ops c ps) (gone c ps u) (Unique-without c ps u)

    -- The item that a removal passes over is not the one it is for.
    differs : (p d c : D) → ops.equals d c ≡ false → ops.equals p d ≡ true → ops.equals p c ≡ false
    differs p d c n y = subst (λ z. ops.equals z c ≡ false) (sym (same p d y)) n

    held-without_other :
        (c d : D) (ps : List (D × ℕ))
        → ops.equals d c ≡ false
        → held c (without ops d ps) ≡ held c ps
    held-without_other c d [] n = refl
    held-without_other c d (p ∷ ps) n = elim (Bool-cases (ops.equals p.0 d)) [
      | inl y ↦ let m = differs p.0 d c n y in rw (y, m) refl
      | inr m ↦ rw m (ap (λ k. if ops.equals p.0 c then p.1 else k) (held-without_other c d ps n))
    ]

    has-without_other :
        (c d : D) (ps : List (D × ℕ))
        → ops.equals d c ≡ false
        → has ops c (without ops d ps) ≡ has ops c ps
    has-without_other c d [] n = refl
    has-without_other c d (p ∷ ps) n = elim (Bool-cases (ops.equals p.0 d)) [
      | inl y ↦ let m = differs p.0 d c n y in rw (y, m) refl
      | inr m ↦ rw m (ap (λ b. if ops.equals p.0 c then true else b) (has-without_other c d ps n))
    ]

    -- What is left to `c` when `d` is taken out.
    pub held-without :
        (c d : D) (ps : List (D × ℕ))
        → Unique ps
        → held c (without ops d ps) ≡ (if ops.equals d c then 0 else held c ps)
    held-without c d ps u = elim (Bool-cases (ops.equals d c)) [
      | inl y ↦
          let e = same d c y in
          rw y (
            held_absent c (without ops d ps)
              (subst (λ z. has ops c (without ops z ps) ≡ false) (sym e) (gone c ps u)))
      | inr n ↦ rw n (held-without_other c d ps n)
    ]

    -- What is left to `c` when `d` is put behind the others with `n` turns.
    pub held-renew :
        (c d : D) (n : ℕ) (ps : List (D × ℕ))
        → Unique ps
        → held c (renew ops d n ps) ≡ (if ops.equals d c then n else held c ps)
    held-renew c d n ps u = elim (Bool-cases (ops.equals d c)) [
      | inl y ↦
          let e = same d c y in
          let g : has ops c (without ops d ps) ≡ false =
            subst (λ z. has ops c (without ops z ps) ≡ false) (sym e) (gone c ps u) in
          held-append c d n (without ops d ps) ∙ rw (g, y) refl
      | inr m ↦
          held-append c d n (without ops d ps)
          ∙ rw (m, has-without_other c d ps m, held-without_other c d ps m) (held_if c ps)
    ]

    held-drop_expired :
        (c : D) (ps : List (D × ℕ)) → Unique ps → held c (drop_expired ps) ≡ held c ps
    held-drop_expired c [] u = refl
    held-drop_expired c (p ∷ ps) (h, u) = elim (Bool-cases (p.1 == 0)) [
      | inr n ↦ rw n refl
      | inl z ↦
          let zero_left : p.1 ≡ 0 = ground (arith, z) in
          elim (Bool-cases (ops.equals p.0 c)) [
            | inl y ↦
                rw (z, y)
                  (held-drop_expired c ps u
                    ∙ held_absent c ps (subst (λ x. has ops x ps ≡ false) (same p.0 c y) h)
                    ∙ sym zero_left)
            | inr m ↦ rw (z, m) (held-drop_expired c ps u)
          ]
    ]

    -- A turn of the clock takes one from each.
    pub held-elapse : (c : D) (ps : List (D × ℕ)) → Unique ps → held c (elapse ps) ≡ held c ps - 1
    held-elapse c ps u = held-drop_expired c (map older ps) (Unique-older ps u) ∙ held-older c ps
