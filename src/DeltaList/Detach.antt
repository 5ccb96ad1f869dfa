-- ===== src/DeltaList/Detach.antt =====
-- The bucket's half of `delta_delete` of common/deltalist.c, as a change of memory.
use psnet.Prelude.{
  ℕ, ◌≡◌, refl, ◌≢◌, ap, inl, inr, Option, none, some, List, ◌∷◌, ◌++◌, [], arith, In, In-middle,
  update, update_self, update_other,
}
use psnet.DeltaList.{Ops, DeltaList, ht_unlink}
use psnet.DeltaList.Bucket.{Cell, Falls, Falls-lt, last_cell, relink, relinked_head}
use psnet.DeltaList.Hash.{slot}

abbrev pub retable : (ℕ → Option ℕ) → Option ℕ → ℕ → Option ℕ → ℕ → Option ℕ
retable table none i v = update table i v
retable table (some a) i v = table

pub retable_self :
    (table : ℕ → Option ℕ) (prev : Option ℕ) (i : ℕ) (v : Option ℕ)
    → retable table prev i v i ≡ relinked_head prev (table i) v
retable_self table none i v = update_self table i v
retable_self table (some a) i v = refl

pub retable_other :
    (table : ℕ → Option ℕ) (prev : Option ℕ) (i : ℕ) (v : Option ℕ) (j : ℕ)
    → j ≢ i
    → retable table prev i v j ≡ table j
retable_other table none i v j n = update_other table i v j n
retable_other table (some a) i v j n = refl

module _ {D : Type 0} where
  pub last_cell-In :
      (y : Cell D) (l : List (Cell D))
      → (c : Cell D) × In c (y ∷ l) × (last_cell (some y.at) l ≡ some c.at)
  last_cell-In y [] = (y, inl refl, refl)
  last_cell-In y (z ∷ l) = let (c, i, e) = last_cell-In z l in (c, inr i, e)

  -- The state in which the bucket's half of `delta_delete` leaves memory.
  abbrev pub unhashed : DeltaList D → ℕ → ℕ → Option ℕ → DeltaList D
  unhashed t i node prev = record t {
    table = retable t.table prev i (t.ht_next node);
    ht_next = relink t.ht_next prev (t.ht_next node);
  }

  abbrev pub forgotten : (ℕ → Option D) → ℕ → ℕ → Option D
  forgotten holds a = update holds a none

  pub Falls-Avoids :
      (n : ℕ) (l : List (Cell D)) (c : Cell D) (r : List (Cell D)) (x : Cell D)
      → Falls n (l ++ c ∷ r)
      → In x (l ++ r)
      → x.at ≢ c.at
  Falls-Avoids n [] c r x f i = let h = Falls-lt c.at r x f.1 i in omega arith
  Falls-Avoids n (y ∷ l) c r x f (inl e) =
      let h = Falls-lt y.at (l ++ c ∷ r) c f.1 (In-middle c l r) in
      let k = ap (λ (z : Cell D). z.at) e in omega arith
  Falls-Avoids n (y ∷ l) c r x f (inr i) = Falls-Avoids y.at l c r x f.1 i

  module _ (ops : Ops D) (t : DeltaList D) where
    pub ht_unlink-none :
        (d : D) (node : ℕ) (x : D)
        → t.node_data node ≡ some x
        → ht_unlink ops t d node none ≡ some (unhashed t (slot ops d) node none)
    unfolding ht_unlink
    ht_unlink-none d node x h = rw h

    pub ht_unlink-some :
        (d : D) (node prev : ℕ) (x y : D)
        → t.node_data node ≡ some x
        → t.node_data prev ≡ some y
        → ht_unlink ops t d node (some prev) ≡ some (unhashed t (slot ops d) node (some prev))
    unfolding ht_unlink
    ht_unlink-some d node prev x y h k = rw (h, k)
