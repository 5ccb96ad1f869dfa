-- ===== src/DeltaList/Hash.antt =====
-- The hash table of common/deltalist.c as an index of the entries, and what `get_node` finds.
use psnet.Prelude.{
  ℕ, ◌%◌, ◌≡◌, sym, ap, subst, ◌⊎◌, inl, inr, true, false, Option, none, some, List, ◌∷◌, ◌++◌, [],
  arith, Bool-cases, In, In-Place, In-middle,
}
use psnet.DeltaList.{Ops, DeltaList, ht_size, get_node}
use psnet.DeltaList.Bucket.{Cell, Chain, Falls, Misses, Split, last_cell, scan_lem}
use psnet.DeltaList.Queue.{Entry}

module _ {D : Type 0} where
  -- What the callbacks promise: `equals` is symmetric and transitive, and equal data have equal hashes.
  pub record IsKey (ops : Ops D) : Type 0 where
    pub equals_symm : (a b : D) → ops.equals a b ≡ ops.equals b a
    pub equals_trans :
        (a b c : D) → ops.equals a b ≡ true → ops.equals b c ≡ true → ops.equals a c ≡ true
    pub hash-equals : (a b : D) → ops.equals a b ≡ true → ops.hash a ≡ ops.hash b

  abbrev pub cell : Entry D → Cell D
  cell e = record { at = e.at; value = e.value }

module _ {D : Type 0} (ops : Ops D) where
  abbrev pub slot : D → ℕ
  slot d = ops.hash d % ht_size

  -- A cell of bucket `i` belongs there, and stands for an entry.
  pub record Placed (es : List (Entry D)) (i : ℕ) (c : Cell D) : Type 0 where
    pub slot_eq : slot c.value ≡ i
    pub entry : Entry D
    pub listed : In entry es
    pub is_cell : cell entry ≡ c

  -- The buckets `bs` hold exactly the entries `es`, each in the slot of its hash, and no two
  -- entries are equal.
  pub record IsIndex (t : DeltaList D) (es : List (Entry D)) (bs : ℕ → List (Cell D)) : Type 0 where
    pub chains : (i : ℕ) → Chain t.node_data t.ht_next (t.table i) (bs i)
    pub falls : (i : ℕ) → Falls t.brk (bs i)
    pub placed : (i : ℕ) (c : Cell D) → In c (bs i) → Placed es i c
    pub found : (e : Entry D) → In e es → In (cell e) (bs (slot e.value))
    pub unique : (e f : Entry D) → In e es → In f es → ops.equals e.value f.value ≡ true → e ≡ f

  Misses-In :
      (d : D) (cs : List (Cell D)) (c : Cell D)
      → Misses ops d cs
      → In c cs
      → ops.equals c.value d ≡ false
  Misses-In d [] c m i = elim i [ ]
  Misses-In d (x ∷ cs) c m (inl e) = rw e m.0
  Misses-In d (x ∷ cs) c m (inr i) = Misses-In d cs c m.1 i

  -- The data is absent: `get_node` returns NULL, and no entry is equal to it.
  pub record Missed (t : DeltaList D) (es : List (Entry D)) (d : D) : Type 0 where
    pub last : Option ℕ
    pub got : get_node ops t d ≡ some (none, last)
    pub absent : (e : Entry D) → In e es → ops.equals e.value d ≡ false

  -- The data is there: `get_node` returns the node of the entry equal to it.
  pub record Hit (t : DeltaList D) (es : List (Entry D)) (bs : ℕ → List (Cell D)) (d : D)
      : Type 0 where
    pub before : List (Entry D)
    pub entry : Entry D
    pub after : List (Entry D)
    pub parts : es ≡ before ++ entry ∷ after
    pub equal : ops.equals entry.value d ≡ true
    pub above : List (Cell D)
    pub below : List (Cell D)
    pub bucket : bs (slot d) ≡ above ++ cell entry ∷ below
    pub got : get_node ops t d ≡ some (some entry.at, last_cell none above)

  module _ (key : IsKey ops) (t : DeltaList D) (es : List (Entry D)) (bs : ℕ → List (Cell D))
      (x : IsIndex t es bs) (d : D) where
    pub slot-equal : (v : D) → ops.equals v d ≡ true → slot v ≡ slot d
    slot-equal v e = ap (λ h. h % ht_size) (key.hash-equals v d e)

    absent_of_Misses :
        Misses ops d (bs (slot d)) → (e : Entry D) → In e es → ops.equals e.value d ≡ false
    absent_of_Misses m e i = elim (Bool-cases (ops.equals e.value d)) [
      | inr f ↦ f
      | inl s ↦
          Misses-In d (bs (slot d)) (cell e) m
            (subst (λ k. In (cell e) (bs k)) (slot-equal e.value s) (x.found e i))
    ]

    Hit-of_Split :
        (s : Split ops d (bs (slot d)))
        → get_node ops t d ≡ some (some s.cell.at, last_cell none s.before)
        → Hit t es bs d
    Hit-of_Split s g =
        let p =
          x.placed (slot d) s.cell
            (subst (In s.cell) (sym s.parts) (In-middle s.cell s.before s.after)) in
        let w = In-Place p.entry es p.listed in
        record {
          before = w.before;
          entry = p.entry;
          after = w.after;
          parts = w.parts;
          equal = subst (λ (c : Cell D). ops.equals c.value d ≡ true) (sym p.is_cell) s.hit;
          above = s.before;
          below = s.after;
          bucket = subst (λ c. bs (slot d) ≡ s.before ++ c ∷ s.after) (sym p.is_cell) s.parts;
          got =
              subst (λ (c : Cell D). get_node ops t d ≡ some (some c.at, last_cell none s.before))
                (sym p.is_cell) g;
        }

    pub get_node-cases : Missed t es d ⊎ Hit t es bs d
    unfolding get_node
    get_node-cases =
        elim (scan_lem ops t d t.brk t.brk (t.table (slot d)) none (bs (slot d)) (omega arith)
          (x.falls (slot d)) (x.chains (slot d))) [
            | inl (g, m) ↦ inl (record {
              last = last_cell none (bs (slot d));
              got = g;
              absent = absent_of_Misses m;
            })
            | inr (s, g) ↦ inr (Hit-of_Split s g)
          ]
