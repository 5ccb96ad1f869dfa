-- ===== src/DeltaList/Order.antt =====
-- A delta list in good order, and what `dl_remove_node` and `dl_insert_node` make of it.
use psnet.Prelude.{
  ℕ, ◌+◌, ◌^◌, ◌<◌, ◌≤◌, ◌≡◌, refl, ◌∙◌, sym, subst, inl, inr, Option, none, some, List, [], ◌∷◌,
  ◌++◌, arith, In, In-append_left, In-append_right, sub32_exact,
}
use psnet.DeltaList.{DeltaList, dl_remove_node}
use psnet.DeltaList.Bucket.{relinked_head}
use psnet.DeltaList.Queue.{
  Entry, Linked, Links, Avoids, Apart, head_at, last_at, last_left, last_at-In, Links-frame, Agree,
}
use psnet.DeltaList.Unlink.{
  removed, removed_delta, Beside, first_at, Links-removed, dl_remove_node_lem,
}

module _ {D : Type 0} where
  -- The delta list stands for the entries `es`: linked both ways, the deltas add up to the ticks
  -- that are left, and `delta` is the sum of the deltas.
  pub record IsQueue (t : DeltaList D) (es : List (Entry D)) : Type 0 where
    pub links : Links t none 0 t.delta_head es
    pub apart : Apart es
    pub sum : t.delta ≡ last_left 0 es
    pub ticks : 0 < t.interval
    pub bound : t.interval < 2 ^ 32

  pub IsQueue-frame :
      (t t' : DeltaList D) (es : List (Entry D))
      → t'.interval ≡ t.interval
      → t'.delta ≡ t.delta
      → t'.delta_head ≡ t.delta_head
      → ((e : Entry D) → In e es → Agree t t' e.at)
      → IsQueue t es
      → IsQueue t' es
  IsQueue-frame t t' es c s h same q = record {
    links =
        subst (λ p. Links t' none 0 p es) (sym h)
          (Links-frame t t' none 0 t.delta_head es c same q.links);
    apart = q.apart;
    sum = s ∙ q.sum;
    ticks = rw c q.ticks;
    bound = rw c q.bound;
  }

  pub Links-holds :
      (t : DeltaList D) (q : Option ℕ) (acc : ℕ) (p : Option ℕ) (es : List (Entry D)) (e : Entry D)
      → Links t q acc p es
      → In e es
      → t.node_data e.at ≡ some e.value
  Links-holds t q acc p [] e h i = elim i [ ]
  Links-holds t q acc p (x ∷ es) e h (inl s) = rw s h.1.holds
  Links-holds t q acc p (x ∷ es) e h (inr i) =
      Links-holds t (some x.at) x.left (t.dl_next x.at) es e h.2 i

  -- What the node of an entry in the middle of the list points to.
  Links-middle :
      (t : DeltaList D) (q : Option ℕ) (acc : ℕ) (p : Option ℕ) (l : List (Entry D)) (e : Entry D)
      (r : List (Entry D))
      → Links t q acc p (l ++ e ∷ r)
      → Linked t (last_at q l) (last_left acc l) e × (t.dl_next e.at ≡ head_at r)
  Links-middle t q acc p [] e [] h = (h.1, h.2)
  Links-middle t q acc p [] e (n ∷ r) h = (h.1, h.2.0)
  Links-middle t q acc p (x ∷ l) e r h =
      Links-middle t (some x.at) x.left (t.dl_next x.at) l e r h.2

  pub Apart-middle :
      (l : List (Entry D)) (e : Entry D) (r : List (Entry D))
      → Apart (l ++ e ∷ r)
      → Avoids e.at (l ++ r)
  Apart-middle [] e r u f i = u.0 f i
  Apart-middle (x ∷ l) e r u f (inl s) =
      rw s (λ c. u.0 e (In-append_right e l (e ∷ r) (inl refl)) (sym c))
  Apart-middle (x ∷ l) e r u f (inr i) = Apart-middle l e r u.1 f i

  Beside-head :
      (t : DeltaList D) (a : ℕ) (r : List (Entry D))
      → Avoids a r
      → ((f : Entry D) → In f r → t.node_data f.at ≡ some f.value)
      → Beside t.node_data a (head_at r)
  Beside-head t a [] o h = tt
  Beside-head t a (n ∷ r) o h = (o n (inl refl), (n.value, h n (inl refl)))

  Beside-last :
      (t : DeltaList D) (a : ℕ) (l : List (Entry D))
      → Avoids a l
      → ((f : Entry D) → In f l → t.node_data f.at ≡ some f.value)
      → Beside t.node_data a (last_at none l)
  Beside-last t a [] o h = tt
  Beside-last t a (x ∷ l) o h = let (f, i, e) = last_at-In x l in rw e (o f i, (f.value, h f i))

  first_at-relinked :
      (p : Option ℕ) (l : List (Entry D)) (v : Option ℕ)
      → relinked_head (last_at none l) p v ≡ first_at p l v
  first_at-relinked p [] v = refl
  first_at-relinked p (x ∷ l) v = let (f, i, e) = last_at-In x l in rw e

  pub Apart-drop :
      (l : List (Entry D)) (e : Entry D) (r : List (Entry D)) → Apart (l ++ e ∷ r) → Apart (l ++ r)
  Apart-drop [] e r u = u.1
  Apart-drop (x ∷ l) e r u = ((λ f i. u.0 f (In_widen f l e r i)), Apart-drop l e r u.1)
    where
      In_widen :
          (f : Entry D) (l : List (Entry D)) (e : Entry D) (r : List (Entry D))
          → In f (l ++ r)
          → In f (l ++ e ∷ r)
      In_widen f [] e r i = inr i
      In_widen f (y ∷ l) e r (inl s) = inl s
      In_widen f (y ∷ l) e r (inr i) = inr (In_widen f l e r i)

  last_left-append :
      (acc : ℕ) (l : List (Entry D)) (e : Entry D) (r : List (Entry D))
      → last_left acc (l ++ e ∷ r) ≡ last_left e.left r
  last_left-append acc [] e r = refl
  last_left-append acc (x ∷ l) e r = last_left-append x.left l e r

  last_left-append_nil : (acc : ℕ) (l : List (Entry D)) → last_left acc (l ++ []) ≡ last_left acc l
  last_left-append_nil acc [] = refl
  last_left-append_nil acc (x ∷ l) = last_left-append_nil x.left l

  sum-removed :
      (total v acc bound : ℕ) (l : List (Entry D)) (e : Entry D) (r : List (Entry D))
      → total ≡ last_left acc (l ++ e ∷ r)
      → last_left acc l + v ≡ e.left
      → e.left ≤ bound
      → bound < 2 ^ 32
      → removed_delta (head_at r) total v ≡ last_left acc (l ++ r)
  sum-removed total v acc bound l e [] h g w b =
      let q = last_left-append acc l e [] in
      let z = last_left-append_nil acc l in
      sub32_exact total v (omega (arith, q)) (omega (arith, q)) ∙ omega (arith, q, z)
  sum-removed total v acc bound l e (n ∷ r) h g w b =
      h ∙ last_left-append acc l e (n ∷ r) ∙ sym (last_left-append acc l n r)

  -- `dl_remove_node` takes the entry out, and leaves the others with the ticks they had left.
  module _ (t : DeltaList D) (l : List (Entry D)) (e : Entry D) (r : List (Entry D))
      (q : IsQueue t (l ++ e ∷ r)) where
    abbrev pub without : DeltaList D
    without = removed t e.at (head_at r) (last_at none l)

    pub dl_remove_node-eq : dl_remove_node t e.at ≡ some without
    dl_remove_node-eq =
        let (m, nx) = Links-middle t none 0 t.delta_head l e r q.links in
        let off = Apart-middle l e r q.apart in
        dl_remove_node_lem t e.at (head_at r) (last_at none l) e.value m.holds nx m.back
          (Beside-head t e.at r (λ f i. off f (In-append_right f l r i))
            (λ f i.
              Links-holds t none 0 t.delta_head (l ++ e ∷ r) f q.links
                (In-append_right f l (e ∷ r) (inr i))))
          (Beside-last t e.at l (λ f i. off f (In-append_left f l r i))
            (λ f i.
              Links-holds t none 0 t.delta_head (l ++ e ∷ r) f q.links
                (In-append_left f l (e ∷ r) i)))

    pub without-IsQueue : IsQueue without (l ++ r)
    without-IsQueue = record {
      links =
          subst (λ p. Links without none 0 p (l ++ r))
            (sym (first_at-relinked t.delta_head l (head_at r)))
            (Links-removed t none 0 t.delta_head l e r q.bound tt q.apart q.links);
      apart = Apart-drop l e r q.apart;
      sum =
          let (m, nx) = Links-middle t none 0 t.delta_head l e r q.links in
          sum-removed t.delta (t.node_delta e.at) 0 t.interval l e r q.sum m.gap m.within q.bound;
      ticks = q.ticks;
      bound = q.bound;
    }
