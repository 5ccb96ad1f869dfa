-- ===== src/DeltaList/Refresh.antt =====
-- `delta_update` of common/deltalist.c: an entry is renewed, or a new one is put at the end.
use psnet.Prelude.{
  ℕ, ◌≡◌, refl, ◌∙◌, sym, ap, subst, ◌⊎◌, inl, inr, true, false, Option, some, List, ◌∷◌, ◌++◌, [],
  Bool-cases, In, In-append, In-append_left, In-append_right, In-narrow, In-widen, In-middle,
}
use psnet.DeltaList.{Ops, DeltaList}
use psnet.DeltaList.Bucket.{Cell}
use psnet.DeltaList.Queue.{Entry, last_at}
use psnet.DeltaList.Order.{Apart-middle}
use psnet.DeltaList.Append.{IsTail, entry}
use psnet.DeltaList.Hash.{IsIndex, Placed, slot, cell}
use psnet.DeltaList.Delete.{IsTable}
use psnet.DeltaList.Spec.{erase, ends, is_newest}

module _ {D : Type 0} (ops : Ops D) where
  last_at-erase :
      (d : D) (q : Option ℕ) (es : List (Entry D))
      → ends ops d es ≡ false
      → last_at q (erase ops d es) ≡ last_at q es
  last_at-erase d q [] h = refl
  last_at-erase d q (e ∷ []) h = rw h
  last_at-erase d q (e ∷ f ∷ es) h = elim (Bool-cases (ops.equals e.value d)) [
    | inl m ↦ rw m
    | inr m ↦ rw m (last_at-erase d (some e.at) (f ∷ es) h)
  ]

  -- The tail pointer stays right when an entry goes that is not the newest of several.
  pub erase-IsTail :
      (t t' : DeltaList D) (d : D) (es : List (Entry D))
      → t'.delta_tail ≡ t.delta_tail
      → is_newest ops d es ≡ false
      → IsTail t es
      → IsTail t' (erase ops d es)
  erase-IsTail t t' d [] s h tail = tt
  erase-IsTail t t' d (e ∷ es) s h tail = elim (Bool-cases (ops.equals e.value d)) [
    | inl m ↦ rw m (shorter es tail)
    | inr m ↦ rw m (s ∙ tail ∙ sym (last_at-erase d (some e.at) es h))
  ]
    where
      shorter : (es : List (Entry D)) → t.delta_tail ≡ last_at (some e.at) es → IsTail t' es
      shorter [] k = tt
      shorter (f ∷ fs) k = s ∙ k

  -- The same nodes in another order, one of them with other ticks, have the same index.
  module _ (t : DeltaList D) (l : List (Entry D)) (e : Entry D) (r : List (Entry D))
      (bs : ℕ → List (Cell D)) (x : IsTable ops t (l ++ e ∷ r) bs) (n : ℕ) where
    abbrev renewed : Entry D
    renewed = entry e.at e.value n

    abbrev moved : List (Entry D)
    moved = (l ++ r) ++ renewed ∷ []

    moved-cases : (f : Entry D) → In f moved → In f (l ++ r) ⊎ (f ≡ renewed)
    moved-cases f k = elim (In-append f (l ++ r) (renewed ∷ []) k) [
      | inl o ↦ inl o
      | inr (inl s) ↦ inr s
      | inr (inr b) ↦ absurd b
    ]

    Placed-moved : (i : ℕ) (c : Cell D) → Placed ops (l ++ e ∷ r) i c → Placed ops moved i c
    Placed-moved i c p = elim (In-narrow p.entry e l r p.listed) [
      | inr o ↦ record {
        slot_eq = p.slot_eq;
        entry = p.entry;
        listed = In-append_left p.entry (l ++ r) (renewed ∷ []) o;
        is_cell = p.is_cell;
      }
      | inl s ↦ record {
        slot_eq = p.slot_eq;
        entry = renewed;
        listed = In-append_right renewed (l ++ r) (renewed ∷ []) (inl refl);
        is_cell = ap cell (sym s) ∙ p.is_cell;
      }
    ]

    found_moved : (f : Entry D) → In f moved → In (cell f) (bs (slot ops f.value))
    found_moved f k = elim (moved-cases f k) [
      | inl o ↦ x.index.found f (In-widen f e l r o)
      | inr s ↦
          subst (λ (z : Entry D). In (cell z) (bs (slot ops z.value))) (sym s)
            (x.index.found e (In-middle e l r))
    ]

    apart_lem : (f : Entry D) → In f (l ++ r) → f ≡ e → ⊥
    apart_lem f o s = Apart-middle l e r x.queue.apart f o (ap (λ (z : Entry D). z.at) s)

    unique_moved :
        (f g : Entry D) → In f moved → In g moved → ops.equals f.value g.value ≡ true → f ≡ g
    unique_moved f g k m s = elim (moved-cases f k) [
      | inl o ↦ elim (moved-cases g m) [
        | inl o' ↦ x.index.unique f g (In-widen f e l r o) (In-widen g e l r o') s
        | inr q ↦ absurd (
            apart_lem f o (
              x.index.unique f e (In-widen f e l r o) (In-middle e l r)
                (subst (λ (z : Entry D). ops.equals f.value z.value ≡ true) q s)))
      ]
      | inr p ↦ elim (moved-cases g m) [
        | inl o' ↦ absurd (
            apart_lem g o' (
              sym (
                x.index.unique e g (In-middle e l r) (In-widen g e l r o')
                  (subst (λ (z : Entry D). ops.equals z.value g.value ≡ true) p s))))
        | inr q ↦ p ∙ sym q
      ]
    ]

    pub moved-IsIndex :
        (t' : DeltaList D)
        → t'.node_data ≡ t.node_data
        → t'.table ≡ t.table
        → t'.ht_next ≡ t.ht_next
        → t'.brk ≡ t.brk
        → IsIndex ops t' ((l ++ r) ++ entry e.at e.value n ∷ []) bs
    moved-IsIndex t' a b c d = record {
      chains = λ i. rw (a, b, c) (x.index.chains i);
      falls = λ i. rw d (x.index.falls i);
      placed = λ i q k. Placed-moved i q (x.index.placed i q k);
      found = found_moved;
      unique = unique_moved;
    }
