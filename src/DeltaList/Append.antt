-- ===== src/DeltaList/Append.antt =====
-- `dl_insert_node` of common/deltalist.c puts an entry with the full interval at the end of the
-- delta list.
use psnet.Prelude.{
  ℕ, ◌+◌, ◌^◌, ◌<◌, ◌≡◌, refl, ◌≢◌, ◌∙◌, sym, subst, inl, inr, Option, none, some, List, [], ◌∷◌,
  ◌++◌, arith, update, update_self, update_other, In-append, sub32, sub32_exact,
}
use psnet.DeltaList.{DeltaList, dl_insert_node}
use psnet.DeltaList.Bucket.{relink, relinked_head}
use psnet.DeltaList.Queue.{Entry, Linked, Links, Avoids, Apart, last_at, last_left, last_at-In}
use psnet.DeltaList.Unlink.{Other, relink-Other}
use psnet.DeltaList.Order.{IsQueue, Links-holds}

-- The delta of a new node.
abbrev pub first_delta : Option ℕ → ℕ → ℕ → ℕ
first_delta none interval total = interval
first_delta (some last) interval total = sub32 interval total

module _ {D : Type 0} where
  -- `delta_tail` points to the last entry; of an empty list it may point anywhere.
  abbrev pub IsTail : DeltaList D → List (Entry D) → Type 0
  IsTail t [] = Unit
  IsTail t (e ∷ es) = t.delta_tail ≡ last_at (some e.at) es

  abbrev pub entry : ℕ → D → ℕ → Entry D
  entry a d n = record { at = a; value = d; left = n }

  -- The state in which `dl_insert_node` leaves memory, behind the node `prv`.
  abbrev pub inserted : DeltaList D → ℕ → Option ℕ → DeltaList D
  inserted t node prv = record t {
    delta = t.interval;
    delta_head = relinked_head prv t.delta_head (some node);
    delta_tail = some node;
    node_delta = update t.node_delta node (first_delta prv t.interval t.delta);
    dl_next = update (relink t.dl_next prv (some node)) node none;
    dl_prev = update t.dl_prev node prv;
  }

  dl_insert_node-empty :
      (t : DeltaList D) (node : ℕ) (d : D)
      → t.node_data node ≡ some d
      → t.delta_head ≡ none
      → dl_insert_node t node ≡ some (inserted t node none)
  unfolding dl_insert_node
  dl_insert_node-empty t node d h e = rw (h, e)

  pub dl_insert_node-behind :
      (t : DeltaList D) (node a last : ℕ) (d x : D)
      → t.node_data node ≡ some d
      → t.delta_head ≡ some a
      → t.delta_tail ≡ some last
      → t.node_data last ≡ some x
      → dl_insert_node t node ≡ some (inserted t node (some last))
  unfolding dl_insert_node
  dl_insert_node-behind t node a last d x h e m k = rw (h, e, m, k, e)

  module _ (t : DeltaList D) (node : ℕ) (d : D) (held : t.node_data node ≡ some d) where
    last_Linked :
        (prv : Option ℕ) (acc : ℕ)
        → acc + first_delta prv t.interval t.delta ≡ t.interval
        → Linked (inserted t node prv) prv acc (entry node d t.interval)
    last_Linked prv acc g = record {
      holds = held;
      back = update_self t.dl_prev node prv;
      gap = rw (update_self t.node_delta node (first_delta prv t.interval t.delta)) g;
      within = omega arith;
    }

    head_Linked :
        (q : Option ℕ) (prv : Option ℕ) (acc : ℕ) (x : Entry D)
        → x.at ≢ node
        → Linked t q acc x
        → Linked (inserted t node prv) q acc x
    head_Linked q prv acc x off h = record {
      holds = h.holds;
      back = update_other t.dl_prev node prv x.at off ∙ h.back;
      gap = rw (update_other t.node_delta node (first_delta prv t.interval t.delta) x.at off) h.gap;
      within = h.within;
    }

    Links-inserted :
        (q : Option ℕ) (acc : ℕ) (p : Option ℕ) (x : Entry D) (l : List (Entry D))
        → t.interval < 2 ^ 32
        → Avoids node (x ∷ l)
        → Apart (x ∷ l)
        → t.delta ≡ last_left x.left l
        → Links t q acc p (x ∷ l)
        → Links
            (inserted t node (last_at (some x.at) l))
            q
            acc
            p
            (x ∷ (l ++ entry node d t.interval ∷ []))
    Links-inserted q acc p x [] c o u s h =
        let off : x.at ≢ node = o x (inl refl) in
        (
          h.0,
          head_Linked q (some x.at) acc x off h.1,
          (
            update_other (update t.dl_next x.at (some node)) node none x.at off
                ∙ update_self t.dl_next x.at (some node),
            last_Linked (some x.at) x.left
                (omega (arith, sub32_exact t.interval t.delta, s, h.1.within)),
            update_self (update t.dl_next x.at (some node)) node none,
          ),
        )
    Links-inserted q acc p x (y ∷ l) c o u s h =
        let off : x.at ≢ node = o x (inl refl) in
        let prv = last_at (some y.at) l in
        let (f, i, m) = last_at-In y l in
        let keep : relink t.dl_next prv (some node) x.at ≡ t.dl_next x.at =
          relink-Other t.dl_next prv (some node) x.at
            (subst (Other x.at) (sym m) (λ e. u.0 f i (sym e))) in
        let next : update (relink t.dl_next prv (some node)) node none x.at ≡ t.dl_next x.at =
          update_other (relink t.dl_next prv (some node)) node none x.at off ∙ keep in
        (
          h.0,
          head_Linked q prv acc x off h.1,
          subst
              (λ p.
                Links (inserted t node prv) (some x.at) x.left p
                  (y ∷ (l ++ entry node d t.interval ∷ [])))
              (sym next)
              (Links-inserted (some x.at) x.left (t.dl_next x.at) y l c (λ f i. o f (inr i)) u.1 s
                h.2),
        )

    abbrev pub new_entry : Entry D
    new_entry = entry node d t.interval

    Apart-append : (es : List (Entry D)) → Avoids node es → Apart es → Apart (es ++ new_entry ∷ [])
    Apart-append [] o u = ((λ f i. elim i [ ]), tt)
    Apart-append (x ∷ es) o u = (
      (λ f i. elim (In-append f es (new_entry ∷ []) i) [
        | inl j ↦ u.0 f j
        | inr (inl e) ↦ rw e (λ s. o x (inl refl) (sym s))
        | inr (inr b) ↦ absurd b
      ]),
      Apart-append es (λ f i. o f (inr i)) u.1,
    )

    last_left-append_new :
        (acc : ℕ) (es : List (Entry D)) → last_left acc (es ++ new_entry ∷ []) ≡ t.interval
    last_left-append_new acc [] = refl
    last_left-append_new acc (x ∷ es) = last_left-append_new x.left es

    last_at-append_new :
        (q : Option ℕ) (es : List (Entry D)) → last_at q (es ++ new_entry ∷ []) ≡ some node
    last_at-append_new q [] = refl
    last_at-append_new q (x ∷ es) = last_at-append_new (some x.at) es

    -- `dl_insert_node` on a list in good order whose tail pointer is right.
    pub dl_insert_node-eq :
        (es : List (Entry D))
        → IsQueue t es
        → IsTail t es
        → dl_insert_node t node ≡ some (inserted t node (last_at none es))
    dl_insert_node-eq [] q m = dl_insert_node-empty t node d held q.links
    dl_insert_node-eq (x ∷ es) q m =
        let (f, i, e) = last_at-In x es in
        rw e (
          dl_insert_node-behind t node x.at f.at d f.value held q.links.0 (m ∙ e)
            (Links-holds t none 0 t.delta_head (x ∷ es) f q.links i))

    pub inserted-IsQueue :
        (es : List (Entry D))
        → IsQueue t es
        → Avoids node es
        → IsQueue (inserted t node (last_at none es)) (es ++ new_entry ∷ [])
    inserted-IsQueue [] q o = record {
      links = (refl, last_Linked none 0 (omega arith), update_self t.dl_next node none);
      apart = ((λ f i. elim i [ ]), tt);
      sum = refl;
      ticks = q.ticks;
      bound = q.bound;
    }
    inserted-IsQueue (x ∷ es) q o = record {
      links =
          let prv = last_at (some x.at) es in
          let (f, i, m) = last_at-In x es in
          let head : relinked_head prv t.delta_head (some node) ≡ t.delta_head = rw m in
          subst (λ p. Links (inserted t node prv) none 0 p (x ∷ (es ++ new_entry ∷ []))) (sym head)
            (Links-inserted none 0 t.delta_head x es q.bound o q.apart q.sum q.links);
      apart = Apart-append (x ∷ es) o q.apart;
      sum = sym (last_left-append_new x.left es);
      ticks = q.ticks;
      bound = q.bound;
    }

    pub inserted-IsTail :
        (es : List (Entry D)) → IsTail (inserted t node (last_at none es)) (es ++ new_entry ∷ [])
    inserted-IsTail [] = refl
    inserted-IsTail (x ∷ es) = sym (last_at-append_new (some x.at) es)
