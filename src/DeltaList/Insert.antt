-- ===== src/DeltaList/Insert.antt =====
-- A new node of common/deltalist.c: `malloc`, then `hash_insert`, seen from the hash table.
use native.Mathlib.Decide.{ℕ_discrete}
use psnet.Prelude.{
  ℕ, suc, ◌≡◌, refl, ◌≢◌, ◌∙◌, sym, ap, subst, ◌⊎◌, inl, inr, true, false, Option, some, List, ◌∷◌,
  ◌++◌, [], arith, In, In-append, In-append_left, In-append_right, update, update_self,
  update_other,
}
use psnet.DeltaList.{Ops, DeltaList, hash_insert}
use psnet.DeltaList.Bucket.{Cell, Chain, Chain-frame, Falls, Falls-lt, Falls-le}
use psnet.DeltaList.Queue.{Entry, Avoids}
use psnet.DeltaList.Append.{entry}
use psnet.DeltaList.Hash.{IsKey, cell, slot, Placed, IsIndex}

module _ {D : Type 0} (ops : Ops D) (t : DeltaList D) where
  -- The state after `malloc` and `hash_insert` of a node for `d`.
  abbrev pub hashed : D → DeltaList D
  hashed d = record t {
    table = update t.table (slot ops d) (some t.brk);
    node_data = update t.node_data t.brk (some d);
    ht_next = update t.ht_next t.brk (t.table (slot ops d));
    brk = suc t.brk;
  }

  pub hash_insert-eq :
      (d : D)
      → hash_insert ops
          (record t { node_data = update t.node_data t.brk (some d); brk = suc t.brk })
          t.brk
        ≡ some (hashed d)
  unfolding hash_insert
  hash_insert-eq d = rw (update_self t.node_data t.brk (some d))

  module _ (key : IsKey ops) (es : List (Entry D)) (bs : ℕ → List (Cell D))
      (x : IsIndex ops t es bs) where
    pub fresh-Avoids : Avoids t.brk es
    fresh-Avoids e i s =
        let lt =
          Falls-lt t.brk (bs (slot ops e.value)) (cell e) (x.falls (slot ops e.value))
            (x.found e i) in
        omega arith

    module _ (d : D) (left : ℕ)
        (absent : (e : Entry D) → In e es → ops.equals e.value d ≡ false) where
      abbrev new : Entry D
      new = entry t.brk d left

      abbrev i : ℕ
      i = slot ops d

      abbrev buckets_with : ℕ → List (Cell D)
      buckets_with = update bs i (cell new ∷ bs i)

      here : buckets_with i ≡ cell new ∷ bs i
      here = update_self bs i (cell new ∷ bs i)

      there : (j : ℕ) → j ≢ i → buckets_with j ≡ bs j
      there j n = update_other bs i (cell new ∷ bs i) j n

      abbrev ChainIn : Option ℕ → List (Cell D) → Type 0
      ChainIn p cs =
          Chain (update t.node_data t.brk (some d)) (update t.ht_next t.brk (t.table i)) p cs

      old_chain : (j : ℕ) → ChainIn (t.table j) (bs j)
      old_chain j =
          Chain-frame t.node_data _ t.ht_next _ (t.table j) (bs j)
            (λ c k.
              let lt = Falls-lt t.brk (bs j) c (x.falls j) k in
              (
                update_other t.node_data t.brk (some d) c.at (omega arith),
                update_other t.ht_next t.brk (t.table i) c.at (omega arith),
              ))
            (x.chains j)

      new_chain : ChainIn (some t.brk) (cell new ∷ bs i)
      new_chain = (
        refl,
        update_self t.node_data t.brk (some d),
        subst (λ p. ChainIn p (bs i)) (sym (update_self t.ht_next t.brk (t.table i))) (old_chain i),
      )

      chains_with : (j : ℕ) → ChainIn (update t.table i (some t.brk) j) (buckets_with j)
      chains_with j = elim (ℕ_discrete j i) [
        | yes s ↦
            subst (λ m. ChainIn (update t.table i (some t.brk) m) (buckets_with m)) (sym s)
              (subst (λ p. ChainIn p (buckets_with i)) (sym (update_self t.table i (some t.brk)))
                (subst (ChainIn (some t.brk)) (sym here) new_chain))
        | no n ↦
            subst (λ p. ChainIn p (buckets_with j)) (sym (update_other t.table i (some t.brk) j n))
              (subst (ChainIn (t.table j)) (sym (there j n)) (old_chain j))
      ]

      Falls-with : (j : ℕ) → Falls (suc t.brk) (buckets_with j)
      Falls-with j = elim (ℕ_discrete j i) [
        | yes s ↦
            subst (λ m. Falls (suc t.brk) (buckets_with m)) (sym s)
              (subst (Falls (suc t.brk)) (sym here) (omega arith, x.falls i))
        | no n ↦
            subst (Falls (suc t.brk)) (sym (there j n))
              (Falls-le t.brk (suc t.brk) (bs j) (omega arith) (x.falls j))
      ]

      Placed-with : (j : ℕ) (c : Cell D) → Placed ops es j c → Placed ops (es ++ new ∷ []) j c
      Placed-with j c p = record {
        slot_eq = p.slot_eq;
        entry = p.entry;
        listed = In-append_left p.entry es (new ∷ []) p.listed;
        is_cell = p.is_cell;
      }

      new-Placed : (c : Cell D) → c ≡ cell new → Placed ops (es ++ new ∷ []) i c
      new-Placed c s = record {
        slot_eq = ap (λ (z : Cell D). slot ops z.value) s;
        entry = new;
        listed = In-append_right new es (new ∷ []) (inl refl);
        is_cell = sym s;
      }

      Placed-update : (j : ℕ) (c : Cell D) → In c (buckets_with j) → Placed ops (es ++ new ∷ []) j c
      Placed-update j c k = elim (ℕ_discrete j i) [
        | no n ↦ Placed-with j c (x.placed j c (subst (In c) (there j n) k))
        | yes s ↦
            subst (λ m. Placed ops (es ++ new ∷ []) m c) (sym s)
              (elim (subst (In c) here (subst (λ m. In c (buckets_with m)) s k)) [
                | inl e ↦ new-Placed c e
                | inr o ↦ Placed-with i c (x.placed i c o)
              ])
      ]

      -- The entries of the longer list are the old ones and the new one.
      entry-cases : (e : Entry D) → In e (es ++ new ∷ []) → In e es ⊎ (e ≡ new)
      entry-cases e k = elim (In-append e es (new ∷ []) k) [
        | inl o ↦ inl o
        | inr (inl s) ↦ inr s
        | inr (inr b) ↦ absurd b
      ]

      found_with :
          (e : Entry D) → In e (es ++ new ∷ []) → In (cell e) (buckets_with (slot ops e.value))
      found_with e k = elim (entry-cases e k) [
        | inr s ↦
            subst (λ (z : Entry D). In (cell z) (buckets_with (slot ops z.value))) (sym s)
              (subst (In (cell new)) (sym here) (inl refl))
        | inl o ↦ elim (ℕ_discrete (slot ops e.value) i) [
          | yes s ↦
              subst (λ m. In (cell e) (buckets_with m)) (sym s)
                (subst (In (cell e)) (sym here)
                  (inr (subst (λ m. In (cell e) (bs m)) s (x.found e o))))
          | no n ↦ subst (In (cell e)) (sym (there (slot ops e.value) n)) (x.found e o)
        ]
      ]

      not-equal : (e : Entry D) → In e es → ops.equals e.value d ≡ true → ⊥
      not-equal e k s = let f = absent e k in cc

      unique_with :
          (e f : Entry D)
          → In e (es ++ new ∷ [])
          → In f (es ++ new ∷ [])
          → ops.equals e.value f.value ≡ true
          → e ≡ f
      unique_with e f k m s = elim (entry-cases e k) [
        | inl o ↦ elim (entry-cases f m) [
          | inl o' ↦ x.unique e f o o' s
          | inr q ↦
              absurd
                (not-equal e o (subst (λ (z : Entry D). ops.equals e.value z.value ≡ true) q s))
        ]
        | inr p ↦ elim (entry-cases f m) [
          | inl o' ↦ absurd (
              not-equal f o' (
                key.equals_symm f.value d
                ∙ subst (λ (z : Entry D). ops.equals z.value f.value ≡ true) p s))
          | inr q ↦ p ∙ sym q
        ]
      ]

      -- With the new node in front of its bucket the buckets index the longer list.
      pub hashed-IsIndex :
          (t' : DeltaList D)
          → t'.node_data ≡ (hashed d).node_data
          → t'.table ≡ (hashed d).table
          → t'.ht_next ≡ (hashed d).ht_next
          → t'.brk ≡ (hashed d).brk
          → (bs' : ℕ → List (Cell D)) × IsIndex ops t' (es ++ entry t.brk d left ∷ []) bs'
      hashed-IsIndex t' a b c e = (
        buckets_with,
        record {
          chains = λ j. rw (a, b, c) (chains_with j);
          falls = λ j. rw e (Falls-with j);
          placed = Placed-update;
          found = found_with;
          unique = unique_with;
        },
      )
