-- ===== src/DeltaList/Unhash.antt =====
-- `delta_delete` of common/deltalist.c takes a node out of its bucket and out of the delta list,
-- and frees it.
use native.Mathlib.Decide.{ℕ_discrete}
use psnet.Prelude.{
  ℕ, ◌≡◌, refl, ◌≢◌, ◌∙◌, sym, ap, subst, inl, inr, Option, none, some, List, ◌∷◌, ◌++◌, [], In,
  In-narrow, In-widen, In-middle, In-append_left, update, update_self, update_other,
}
use psnet.DeltaList.{Ops, DeltaList, ht_unlink}
use psnet.DeltaList.Bucket.{
  Cell, Chain, Chain-frame, Chain-holds, Chain-unlink, Falls, Falls-drop, last_cell, relink,
}
use psnet.DeltaList.Queue.{Entry, Avoids}
use psnet.DeltaList.Unlink.{Other, relink-Other}
use psnet.DeltaList.Hash.{cell, slot, Placed, IsIndex}
use psnet.DeltaList.Detach.{
  retable, retable_self, retable_other, last_cell-In, unhashed, forgotten, Falls-Avoids,
  ht_unlink-none, ht_unlink-some,
}

module _ {D : Type 0} where
  module _ (ops : Ops D) (t : DeltaList D) (l : List (Entry D)) (e : Entry D) (r : List (Entry D))
      (bs : ℕ → List (Cell D)) (x : IsIndex ops t (l ++ e ∷ r) bs) (off : Avoids e.at (l ++ r))
      (i : ℕ) (above below : List (Cell D)) (bucket : bs i ≡ above ++ cell e ∷ below) where
    abbrev prev : Option ℕ
    prev = last_cell none above

    chain : Chain t.node_data t.ht_next (t.table i) (above ++ cell e ∷ below)
    chain = subst (Chain t.node_data t.ht_next (t.table i)) bucket (x.chains i)

    falls : Falls t.brk (above ++ cell e ∷ below)
    falls = subst (Falls t.brk) bucket (x.falls i)

    inside : (c : Cell D) → In c (above ++ cell e ∷ below) → In c (bs i)
    inside c = subst (In c) (sym bucket)

    holds_of : (j : ℕ) (c : Cell D) → In c (bs j) → t.node_data c.at ≡ some c.value
    holds_of j c k = Chain-holds t.node_data t.ht_next (t.table j) (bs j) c (x.chains j) k

    -- Buckets share no node.
    slots_apart : (j : ℕ) (b c : Cell D) → In b (bs i) → In c (bs j) → j ≢ i → c.at ≢ b.at
    slots_apart j b c ib ic n s =
        let v : some c.value ≡ some b.value =
          sym (holds_of j c ic) ∙ ap t.node_data s ∙ holds_of i b ib in
        let w : c.value ≡ b.value = cc in
        n (sym ((x.placed j c ic).slot_eq) ∙ ap (slot ops) w ∙ (x.placed i b ib).slot_eq)

    pub ht_unlink-eq :
        (d : D)
        → slot ops d ≡ i
        → ht_unlink ops t d e.at (last_cell none above)
          ≡ some (unhashed t i e.at (last_cell none above))
    ht_unlink-eq d s =
        subst
          (λ k.
            ht_unlink ops t d e.at (last_cell none above)
            ≡ some (unhashed t k e.at (last_cell none above)))
          s (go above (λ c k. holds_of i c (inside c (In-append_left c above (cell e ∷ below) k))))
      where
        go :
            (above : List (Cell D))
            → ((c : Cell D) → In c above → t.node_data c.at ≡ some c.value)
            → ht_unlink ops t d e.at (last_cell none above)
              ≡ some (unhashed t (slot ops d) e.at (last_cell none above))
        go [] h =
            ht_unlink-none ops t d e.at e.value
              (holds_of i (cell e) (inside (cell e) (In-middle (cell e) above below)))
        go (y ∷ m) h =
            let (c, k, s) = last_cell-In y m in
            rw s (
              ht_unlink-some ops t d e.at c.at e.value c.value
                (holds_of i (cell e) (inside (cell e) (In-middle (cell e) above below))) (h c k))

    forgotten_other : (b : ℕ) → b ≢ e.at → forgotten t.node_data e.at b ≡ t.node_data b
    forgotten_other b n = update_other t.node_data e.at none b n

    -- The bucket itself, without the node.
    Chain-here :
        Chain
          (forgotten t.node_data e.at)
          (relink t.ht_next prev (t.ht_next e.at))
          (retable t.table prev i (t.ht_next e.at) i)
          (above ++ below)
    Chain-here =
        subst
          (λ p.
            Chain (forgotten t.node_data e.at) (relink t.ht_next prev (t.ht_next e.at)) p
              (above ++ below))
          (sym (retable_self t.table prev i (t.ht_next e.at)))
          (Chain-frame t.node_data (forgotten t.node_data e.at) _ _ _ (above ++ below)
            (λ c k.
              (forgotten_other c.at (Falls-Avoids t.brk above (cell e) below c falls k), refl))
            (Chain-unlink t.node_data t.ht_next above (cell e) below t.brk (t.table i) falls chain))

    prev-Other : (j : ℕ) (c : Cell D) → In c (bs j) → j ≢ i → Other c.at (last_cell none above)
    prev-Other j c ic n =
        go above
          (λ b k. slots_apart j b c (inside b (In-append_left b above (cell e ∷ below) k)) ic n)
      where
        go :
            (above : List (Cell D))
            → ((b : Cell D) → In b above → c.at ≢ b.at)
            → Other c.at (last_cell none above)
        go [] h = tt
        go (y ∷ m) h = let (b, k, s) = last_cell-In y m in subst (Other c.at) (sym s) (h b k)

    -- The other buckets are as they were.
    Chain-there :
        (j : ℕ)
        → j ≢ i
        → Chain
            (forgotten t.node_data e.at)
            (relink t.ht_next prev (t.ht_next e.at))
            (retable t.table prev i (t.ht_next e.at) j)
            (bs j)
    Chain-there j n =
        subst
          (λ p.
            Chain (forgotten t.node_data e.at) (relink t.ht_next prev (t.ht_next e.at)) p (bs j))
          (sym (retable_other t.table prev i (t.ht_next e.at) j n))
          (Chain-frame t.node_data (forgotten t.node_data e.at) t.ht_next
            (relink t.ht_next prev (t.ht_next e.at)) (t.table j) (bs j)
            (λ c k. (
              forgotten_other c.at
                  (slots_apart j (cell e) c (inside (cell e) (In-middle (cell e) above below)) k n),
              relink-Other t.ht_next prev (t.ht_next e.at) c.at (prev-Other j c k n),
            ))
            (x.chains j))

    abbrev pub buckets_without : ℕ → List (Cell D)
    buckets_without = update bs i (above ++ below)

    here : buckets_without i ≡ above ++ below
    here = update_self bs i (above ++ below)

    there : (j : ℕ) → j ≢ i → buckets_without j ≡ bs j
    there j n = update_other bs i (above ++ below) j n

    Placed-drop :
        (j : ℕ) (c : Cell D) → Placed ops (l ++ e ∷ r) j c → c.at ≢ e.at → Placed ops (l ++ r) j c
    Placed-drop j c p n = record {
      slot_eq = p.slot_eq;
      entry = p.entry;
      listed = elim (In-narrow p.entry e l r p.listed) [
        | inr k ↦ k
        | inl s ↦ absurd (n (ap (λ (z : Cell D). z.at) (sym p.is_cell ∙ ap cell s)))
      ];
      is_cell = p.is_cell;
    }

    -- Whatever the bucket, a cell of it that is left belongs there.
    Placed-left : (j : ℕ) (c : Cell D) → In c (buckets_without j) → Placed ops (l ++ r) j c
    Placed-left j c k = elim (ℕ_discrete j i) [
      | yes s ↦
          let k' : In c (above ++ below) =
            subst (In c) here (subst (λ m. In c (buckets_without m)) s k) in
          Placed-drop j c
            (subst (λ m. Placed ops (l ++ e ∷ r) m c) (sym s)
              (x.placed i c (inside c (In-widen c (cell e) above below k'))))
            (Falls-Avoids t.brk above (cell e) below c falls k')
      | no n ↦
          let k' : In c (bs j) = subst (In c) (there j n) k in
          Placed-drop j c (x.placed j c k')
            (slots_apart j (cell e) c (inside (cell e) (In-middle (cell e) above below)) k' n)
    ]

    found_left : (f : Entry D) → In f (l ++ r) → In (cell f) (buckets_without (slot ops f.value))
    found_left f k =
        let old = x.found f (In-widen f e l r k) in
        elim (ℕ_discrete (slot ops f.value) i) [
          | no n ↦ subst (In (cell f)) (sym (there (slot ops f.value) n)) old
          | yes s ↦
              subst (λ m. In (cell f) (buckets_without m)) (sym s)
                (subst (In (cell f)) (sym here)
                  (elim (In-narrow (cell f) (cell e) above below
                    (subst (In (cell f)) bucket (subst (λ m. In (cell f) (bs m)) s old))) [
                      | inr m ↦ m
                      | inl q ↦ absurd (off f k (ap (λ (z : Cell D). z.at) q))
                    ]))
        ]

    Falls-without : (j : ℕ) → Falls t.brk (buckets_without j)
    Falls-without j = elim (ℕ_discrete j i) [
      | yes s ↦
          subst (λ m. Falls t.brk (buckets_without m)) (sym s)
            (subst (Falls t.brk) (sym here) (Falls-drop t.brk above (cell e) below falls))
      | no n ↦ subst (Falls t.brk) (sym (there j n)) (x.falls j)
    ]

    abbrev ChainAt : ℕ → List (Cell D) → Type 0
    ChainAt j cs =
        Chain (forgotten t.node_data e.at) (relink t.ht_next prev (t.ht_next e.at))
          (retable t.table prev i (t.ht_next e.at) j) cs

    chains_left : (j : ℕ) → ChainAt j (buckets_without j)
    chains_left j = elim (ℕ_discrete j i) [
      | yes s ↦
          subst (λ m. ChainAt m (buckets_without m)) (sym s)
            (subst (ChainAt i) (sym here) Chain-here)
      | no n ↦ subst (ChainAt j) (sym (there j n)) (Chain-there j n)
    ]

    -- After the removal the buckets index the entries that are left, in every state whose hash
    -- table is as `ht_unlink` and the free of the node leave it.
    pub without-IsIndex :
        (t' : DeltaList D)
        → t'.node_data ≡ forgotten t.node_data e.at
        → t'.table ≡ retable t.table (last_cell none above) i (t.ht_next e.at)
        → t'.ht_next ≡ relink t.ht_next (last_cell none above) (t.ht_next e.at)
        → t'.brk ≡ t.brk
        → IsIndex ops t' (l ++ r) buckets_without
    without-IsIndex t' a b c d = record {
      chains = λ j. rw (a, b, c) (chains_left j);
      falls = λ j. rw d (Falls-without j);
      placed = Placed-left;
      found = found_left;
      unique = λ f g k m s. x.unique f g (In-widen f e l r k) (In-widen g e l r m) s;
    }
