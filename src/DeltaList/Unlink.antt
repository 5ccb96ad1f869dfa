-- ===== src/DeltaList/Unlink.antt =====
-- `dl_remove_node` of common/deltalist.c takes an entry out of the delta list.
use psnet.Prelude.{
  ℕ, ◌+◌, ◌^◌, ◌<◌, ◌≡◌, refl, ◌≢◌, ◌∙◌, sym, inl, inr, Option, none, some, List, [], ◌∷◌, ◌++◌,
  arith, update, update_self, update_other, In, In-append_left, In-append_right, add32, sub32,
  add32_exact,
}
use psnet.DeltaList.{DeltaList, dl_remove_node, unlink_next, unlink_prev}
use psnet.DeltaList.Bucket.{relink, relinked_head}
use psnet.DeltaList.Queue.{
  Entry, Links, Avoids, Apart, head_at, last_at, Agree, Links-frame, last_at-In,
}

-- What a removal does to the delta of the node behind, and to the sum of the deltas.
abbrev pub bump : (ℕ → ℕ) → Option ℕ → ℕ → ℕ → ℕ
bump f none v = f
bump f (some n) v = update f n (add32 (f n) v)

abbrev pub removed_delta : Option ℕ → ℕ → ℕ → ℕ
removed_delta none total v = sub32 total v
removed_delta (some n) total v = total

abbrev pub Other : ℕ → Option ℕ → Type 0
Other b none = Unit
Other b (some n) = b ≢ n

pub relink-Other :
    (next : ℕ → Option ℕ) (k v : Option ℕ) (b : ℕ) → Other b k → relink next k v b ≡ next b
relink-Other next none v b o = refl
relink-Other next (some k) v b o = update_other next k v b o

bump-Other : (f : ℕ → ℕ) (k : Option ℕ) (v b : ℕ) → Other b k → bump f k v b ≡ f b
bump-Other f none v b o = refl
bump-Other f (some k) v b o = update_other f k (add32 (f k) v) b o

module _ {D : Type 0} where
  -- The state in which `dl_remove_node` leaves memory, for a node at `a` between `nxt` and `prv`.
  abbrev pub removed : DeltaList D → ℕ → (nxt prv : Option ℕ) → DeltaList D
  removed t a nxt prv = record t {
    delta = removed_delta nxt t.delta (t.node_delta a);
    delta_head = relinked_head prv t.delta_head nxt;
    node_delta = bump t.node_delta nxt (t.node_delta a);
    dl_next = relink t.dl_next prv nxt;
    dl_prev = relink t.dl_prev nxt prv;
  }

  -- The neighbour, if there is one, is a node other than the one at `a`.
  abbrev pub Beside : (ℕ → Option D) → ℕ → Option ℕ → Type 0
  Beside holds a none = Unit
  Beside holds a (some n) = (n ≢ a) × ((x : D) × (holds n ≡ some x))

  unlink_prev_lem :
      (t : DeltaList D) (a : ℕ) (nxt prv : Option ℕ)
      → t.dl_next a ≡ nxt
      → Beside t.node_data a prv
      → unlink_prev t a prv
        ≡ some (record t {
          delta_head = relinked_head prv t.delta_head nxt;
          dl_next = relink t.dl_next prv nxt;
        })
  unfolding unlink_prev
  unlink_prev_lem t a nxt none n b = rw n
  unlink_prev_lem t a nxt (some p) n b = rw (b.1.1, n)

  unlink_next_lem :
      (t : DeltaList D) (a : ℕ) (nxt prv : Option ℕ)
      → t.dl_prev a ≡ prv
      → Beside t.node_data a nxt
      → unlink_next t a nxt
        ≡ some (record t {
          delta = removed_delta nxt t.delta (t.node_delta a);
          node_delta = bump t.node_delta nxt (t.node_delta a);
          dl_prev = relink t.dl_prev nxt prv;
        })
  unfolding unlink_next
  unlink_next_lem t a none prv p b = refl
  unlink_next_lem t a (some n) prv p b = rw (b.1.1, p)

  Beside-Other : (t : DeltaList D) (a : ℕ) (n : Option ℕ) → Beside t.node_data a n → Other a n
  Beside-Other t a none b = tt
  Beside-Other t a (some n) b = λ e. b.0 (sym e)

  pub dl_remove_node_lem :
      (t : DeltaList D) (a : ℕ) (nxt prv : Option ℕ) (x : D)
      → t.node_data a ≡ some x
      → t.dl_next a ≡ nxt
      → t.dl_prev a ≡ prv
      → Beside t.node_data a nxt
      → Beside t.node_data a prv
      → dl_remove_node t a ≡ some (removed t a nxt prv)
  unfolding dl_remove_node
  dl_remove_node_lem t a nxt prv x h n p bn bp =
      let back = relink-Other t.dl_prev nxt prv a (Beside-Other t a nxt bn) ∙ p in
      rw (h, n, unlink_next_lem t a nxt prv p bn, back) (unlink_prev_lem _ a nxt prv n bp)

  removed-Agree :
      (t : DeltaList D) (a : ℕ) (nxt prv : Option ℕ) (b : ℕ)
      → Other b nxt
      → Other b prv
      → Agree t (removed t a nxt prv) b
  removed-Agree t a nxt prv b n p = record {
    holds = refl;
    delta = bump-Other t.node_delta nxt (t.node_delta a) b n;
    next = relink-Other t.dl_next prv nxt b p;
    prev = relink-Other t.dl_prev nxt prv b n;
  }

  abbrev pub AvoidsOpt : Option ℕ → List (Entry D) → Type 0
  AvoidsOpt none es = Unit
  AvoidsOpt (some a) es = Avoids a es

  Other-of_avoids :
      (q : Option ℕ) (es : List (Entry D)) (f : Entry D) → AvoidsOpt q es → In f es → Other f.at q
  Other-of_avoids none es f h i = tt
  Other-of_avoids (some a) es f h i = h f i

  -- The entries behind the removed one: the first takes over its delta and its `dl_prev`.
  Links-removed_front :
      (t : DeltaList D) (q : Option ℕ) (acc : ℕ) (p : Option ℕ) (e : Entry D) (r : List (Entry D))
      → t.interval < 2 ^ 32
      → AvoidsOpt q (e ∷ r)
      → Apart (e ∷ r)
      → Links t q acc p (e ∷ r)
      → Links (removed t e.at (head_at r) q) q acc (head_at r) r
  Links-removed_front t q acc p e [] c o u h = refl
  Links-removed_front t q acc p e (n ∷ r) c o u h =
      let t' = removed t e.at (some n.at) q in
      let keep : t'.dl_next n.at ≡ t.dl_next n.at =
        relink-Other t.dl_next q (some n.at) n.at
          (Other-of_avoids q (e ∷ n ∷ r) n o (inr (inl refl))) in
      let wide : add32 (t.node_delta n.at) (t.node_delta e.at)
          ≡ t.node_delta n.at + t.node_delta e.at =
        add32_exact _ _ (omega (arith, h.1.gap, h.2.1.gap, h.2.1.within)) in
      let now : t'.node_delta n.at ≡ t.node_delta n.at + t.node_delta e.at =
        update_self t.node_delta n.at (add32 (t.node_delta n.at) (t.node_delta e.at)) ∙ wide in
      (
        refl,
        record {
          holds = h.2.1.holds;
          back = update_self t.dl_prev n.at q;
          gap = omega (arith, now, h.1.gap, h.2.1.gap);
          within = h.2.1.within;
        },
        rw keep (
            Links-frame t t' (some n.at) n.left (t.dl_next n.at) r refl
              (λ f i.
                removed-Agree t e.at (some n.at) q f.at (u.1.0 f i)
                  (Other-of_avoids q (e ∷ n ∷ r) f o (inr (inr i))))
              h.2.2),
      )

  head_at-Other : (x : Entry D) (r : List (Entry D)) → Avoids x.at r → Other x.at (head_at r)
  head_at-Other x [] h = tt
  head_at-Other x (n ∷ r) h = λ e. h n (inl refl) (sym e)

  abbrev pub first_at : Option ℕ → List (Entry D) → Option ℕ → Option ℕ
  first_at p [] v = v
  first_at p (x ∷ l) v = p

  -- `dl_remove_node` leaves the other entries linked, with the ticks that they had left.
  pub Links-removed :
      (t : DeltaList D) (q : Option ℕ) (acc : ℕ) (p : Option ℕ) (l : List (Entry D)) (e : Entry D)
      (r : List (Entry D))
      → t.interval < 2 ^ 32
      → AvoidsOpt q (l ++ e ∷ r)
      → Apart (l ++ e ∷ r)
      → Links t q acc p (l ++ e ∷ r)
      → Links (removed t e.at (head_at r) (last_at q l)) q acc (first_at p l (head_at r)) (l ++ r)
  Links-removed t q acc p [] e r c o u h = Links-removed_front t q acc p e r c o u h
  Links-removed t q acc p (x ∷ l) e r c o u h =
      let t' = removed t e.at (head_at r) (last_at (some x.at) l) in
      let front : Other x.at (head_at r) =
        head_at-Other x r (λ f i. u.0 f (In-append_right f l (e ∷ r) (inr i))) in
      (
        h.0,
        record {
          holds = h.1.holds;
          back = relink-Other t.dl_prev (head_at r) (last_at (some x.at) l) x.at front ∙ h.1.back;
          gap = rw (bump-Other t.node_delta (head_at r) (t.node_delta e.at) x.at front) h.1.gap;
          within = h.1.within;
        },
        rw (next_of t x l e r u)
            (Links-removed t (some x.at) x.left (t.dl_next x.at) l e r c u.0 u.1 h.2),
      )
    where
      next_of :
          (t : DeltaList D) (x : Entry D) (l : List (Entry D)) (e : Entry D) (r : List (Entry D))
          → Apart (x ∷ (l ++ e ∷ r))
          → relink t.dl_next (last_at (some x.at) l) (head_at r) x.at
            ≡ first_at (t.dl_next x.at) l (head_at r)
      next_of t x [] e r u = update_self t.dl_next x.at (head_at r)
      next_of t x (y ∷ l) e r u =
          let (f, i, m) = last_at-In y l in
          rw m (
            update_other t.dl_next f.at (head_at r) x.at
              (λ s. u.0 f (In-append_left f (y ∷ l) (e ∷ r) i) (sym s)))
