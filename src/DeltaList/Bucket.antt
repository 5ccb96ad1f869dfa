-- ===== src/DeltaList/Bucket.antt =====
-- The walk along one bucket (`get_node` of common/deltalist.c) and the unlinking of a node from it,
-- for a bucket that is a chain of known nodes.
use psnet.Prelude.{
  ℕ, zero, suc, ◌<◌, ◌≤◌, ◌≡◌, refl, ◌∙◌, ap, ◌⊎◌, inl, inr, true, false, Option, none, some, List,
  [], ◌∷◌, ◌++◌, arith, Bool-cases, update, update_self, update_other, In,
}
use psnet.DeltaList.{Ops, DeltaList, scan}

-- A node as the hash table sees it: its address and its data.
pub record Cell (D : Type 0) : Type 0 where
  pub at : ℕ
  pub value : D

module _ {D : Type 0} where
  -- From `p` the `ht_next` pointers lead through the nodes `cs` to NULL.
  abbrev pub Chain : (ℕ → Option D) → (ℕ → Option ℕ) → Option ℕ → List (Cell D) → Type 0
  Chain holds next p [] = p ≡ none
  Chain holds next p (c ∷ cs) =
      (p ≡ some c.at) × (holds c.at ≡ some c.value) × Chain holds next (next c.at) cs

  -- Addresses fall along a bucket, since new nodes are put in front.
  abbrev pub Falls : ℕ → List (Cell D) → Type 0
  Falls n [] = Unit
  Falls n (c ∷ cs) = (c.at < n) × Falls c.at cs

  -- The `last` of the walk behind the cells `l`.
  abbrev pub last_cell : Option ℕ → List (Cell D) → Option ℕ
  last_cell q [] = q
  last_cell q (c ∷ cs) = last_cell (some c.at) cs

  -- No cell of the list holds data equal to `d`.
  abbrev pub Misses : Ops D → D → List (Cell D) → Type 0
  Misses ops d [] = Unit
  Misses ops d (c ∷ cs) = (ops.equals c.value d ≡ false) × Misses ops d cs

  -- The cells split at the first that holds data equal to `d`.
  pub record Split (ops : Ops D) (d : D) (cs : List (Cell D)) : Type 0 where
    pub before : List (Cell D)
    pub cell : Cell D
    pub after : List (Cell D)
    pub parts : cs ≡ before ++ cell ∷ after
    pub hit : ops.equals cell.value d ≡ true

  pub Falls-le : (m n : ℕ) (cs : List (Cell D)) → m ≤ n → Falls m cs → Falls n cs
  Falls-le m n [] h f = tt
  Falls-le m n (c ∷ cs) h f = (omega arith, f.1)

  pub Falls-lt : (n : ℕ) (cs : List (Cell D)) (c : Cell D) → Falls n cs → In c cs → c.at < n
  Falls-lt n [] c f i = elim i [ ]
  Falls-lt n (x ∷ cs) c f (inl e) = rw e f.0
  Falls-lt n (x ∷ cs) c f (inr i) = let h = Falls-lt x.at cs c f.1 i in omega arith

  -- The nodes behind a cell have other addresses than its own.
  pub Falls-drop :
      (n : ℕ) (l : List (Cell D)) (c : Cell D) (r : List (Cell D))
      → Falls n (l ++ c ∷ r)
      → Falls n (l ++ r)
  Falls-drop n [] c r f = Falls-le c.at n r (omega arith) f.1
  Falls-drop n (x ∷ l) c r f = (f.0, Falls-drop x.at l c r f.1)

  -- A chain survives a change of memory that spares its own nodes.
  pub Chain-frame :
      (holds holds' : ℕ → Option D) (next next' : ℕ → Option ℕ) (p : Option ℕ) (cs : List (Cell D))
      → ((c : Cell D) → In c cs → (holds' c.at ≡ holds c.at) × (next' c.at ≡ next c.at))
      → Chain holds next p cs
      → Chain holds' next' p cs
  Chain-frame holds holds' next next' p [] same h = h
  Chain-frame holds holds' next next' p (c ∷ cs) same h = (
    h.0,
    (same c (inl refl)).0 ∙ h.1,
    rw ((same c (inl refl)).1)
        (Chain-frame holds holds' next next' (next c.at) cs (λ x i. same x (inr i)) h.2),
  )

  pub Chain-holds :
      (holds : ℕ → Option D) (next : ℕ → Option ℕ) (p : Option ℕ) (cs : List (Cell D)) (c : Cell D)
      → Chain holds next p cs
      → In c cs
      → holds c.at ≡ some c.value
  Chain-holds holds next p [] c h i = elim i [ ]
  Chain-holds holds next p (x ∷ cs) c h (inl e) = rw e h.1
  Chain-holds holds next p (x ∷ cs) c h (inr i) = Chain-holds holds next (next x.at) cs c h.2 i

module _ {D : Type 0} (ops : Ops D) (t : DeltaList D) (d : D) where
  -- What the walk returns: NULL when every cell misses, and else the first hit with the node
  -- before it.
  abbrev pub Scanned : Option ℕ → List (Cell D) → Option (Option ℕ × Option ℕ) → Type 0
  Scanned last cs r =
      ((r ≡ some (none, last_cell last cs)) × Misses ops d cs)
      ⊎ ((s : Split ops d cs) × (r ≡ some (some s.cell.at, last_cell last s.before)))

  Scanned-cons :
      (last : Option ℕ) (c : Cell D) (cs : List (Cell D)) (r : Option (Option ℕ × Option ℕ))
      → ops.equals c.value d ≡ false
      → Scanned (some c.at) cs r
      → Scanned last (c ∷ cs) r
  Scanned-cons last c cs r miss (inl (e, m)) = inl (e, (miss, m))
  Scanned-cons last c cs r miss (inr (s, e)) = inr (
    record {
      before = c ∷ s.before;
      cell = s.cell;
      after = s.after;
      parts = ap (λ x. c ∷ x) s.parts;
      hit = s.hit;
    },
    e,
  )

  scan-hit :
      (fuel : ℕ) (c : Cell D) (last : Option ℕ)
      → t.node_data c.at ≡ some c.value
      → ops.equals c.value d ≡ true
      → scan ops (suc fuel) t d (some c.at) last ≡ some (some c.at, last)
  unfolding scan
  scan-hit fuel c last h hit = rw (h, hit)

  scan-miss :
      (fuel : ℕ) (c : Cell D) (last : Option ℕ)
      → t.node_data c.at ≡ some c.value
      → ops.equals c.value d ≡ false
      → scan ops (suc fuel) t d (some c.at) last ≡ scan ops fuel t d (t.ht_next c.at) (some c.at)
  unfolding scan
  scan-miss fuel c last h miss = rw (h, miss)

  scan-null : (fuel : ℕ) (last : Option ℕ) → scan ops fuel t d none last ≡ some (none, last)
  unfolding scan
  scan-null zero last = refl
  scan-null (suc fuel) last = refl

  pub scan_lem :
      (fuel n : ℕ) (p last : Option ℕ) (cs : List (Cell D))
      → n ≤ fuel
      → Falls n cs
      → Chain t.node_data t.ht_next p cs
      → Scanned last cs (scan ops fuel t d p last)
  scan_lem fuel n p last [] le f h = rw h (inl (scan-null fuel last, tt))
  scan_lem zero n p last (c ∷ cs) le f h = absurd (omega arith)
  scan_lem (suc fuel) n p last (c ∷ cs) le f h = rw h.0 (elim (Bool-cases (ops.equals c.value d)) [
    | inl hit ↦ inr (
      record { before = []; cell = c; after = cs; parts = refl; hit = hit },
      scan-hit fuel c last h.1 hit,
    )
    | inr miss ↦ rw (scan-miss fuel c last h.1 miss) (
        Scanned-cons last c cs _ miss
          (scan_lem fuel c.at (t.ht_next c.at) (some c.at) cs (omega arith) f.1 h.2))
  ])

-- The pointer from `last`, or the bucket's own where there is none, is set to `v`.
abbrev pub relink : (ℕ → Option ℕ) → Option ℕ → Option ℕ → ℕ → Option ℕ
relink next none v = next
relink next (some a) v = update next a v

abbrev pub relinked_head : Option ℕ → Option ℕ → Option ℕ → Option ℕ
relinked_head none p v = v
relinked_head (some a) p v = p

module _ {D : Type 0} where
  pub Falls-left : (n : ℕ) (l r : List (Cell D)) → Falls n (l ++ r) → Falls n l
  Falls-left n [] r f = tt
  Falls-left n (x ∷ l) r f = (f.0, Falls-left x.at l r f.1)

  pub last_cell-le :
      (l : List (Cell D)) (q : ℕ) → Falls q l → (a : ℕ) × (last_cell (some q) l ≡ some a) × (a ≤ q)
  last_cell-le [] q f = (q, refl, omega arith)
  last_cell-le (x ∷ l) q f = let (a, e, h) = last_cell-le l x.at f.1 in (a, e, omega arith)

  module _ (holds : ℕ → Option D) (next : ℕ → Option ℕ) where
    Chain-relink_below :
        (a : ℕ) (v p : Option ℕ) (n : ℕ) (cs : List (Cell D))
        → n ≤ a
        → Falls n cs
        → Chain holds next p cs
        → Chain holds (update next a v) p cs
    Chain-relink_below a v p n cs le f h =
        Chain-frame holds holds next (update next a v) p cs
          (λ c i. (refl, update_other next a v c.at (let lt = Falls-lt n cs c f i in omega arith)))
          h

    pub Chain-unlink_behind :
        (l : List (Cell D)) (x c : Cell D) (r : List (Cell D)) (p : Option ℕ)
        → Falls x.at (l ++ c ∷ r)
        → Chain holds next p (x ∷ (l ++ c ∷ r))
        → Chain holds (relink next (last_cell (some x.at) l) (next c.at)) p (x ∷ (l ++ r))
    Chain-unlink_behind [] x c r p f h = (
      h.0,
      h.1,
      rw (update_self next x.at (next c.at))
          (Chain-relink_below x.at (next c.at) (next c.at) c.at r (omega arith) f.1 h.2.2),
    )
    Chain-unlink_behind (y ∷ l) x c r p f h = (
      h.0,
      h.1,
      let (a, e, le) = last_cell-le l y.at (Falls-left y.at l (c ∷ r) f.1) in
          let keep : relink next (last_cell (some y.at) l) (next c.at) x.at ≡ next x.at =
            rw e (update_other next a (next c.at) x.at (omega arith)) in
          rw keep (Chain-unlink_behind l y c r (next x.at) f.1 h.2),
    )

    -- Taking a cell out of a bucket leaves the chain of the others.
    pub Chain-unlink :
        (l : List (Cell D)) (c : Cell D) (r : List (Cell D)) (n : ℕ) (p : Option ℕ)
        → Falls n (l ++ c ∷ r)
        → Chain holds next p (l ++ c ∷ r)
        → Chain holds
            (relink next (last_cell none l) (next c.at))
            (relinked_head (last_cell none l) p (next c.at))
            (l ++ r)
    Chain-unlink [] c r n p f h = h.2
    Chain-unlink (x ∷ l) c r n p f h =
        let (a, e, le) = last_cell-le l x.at (Falls-left x.at l (c ∷ r) f.1) in
        let head : relinked_head (last_cell (some x.at) l) p (next c.at) ≡ p = rw e in
        rw head (Chain-unlink_behind l x c r p f.1 h)
