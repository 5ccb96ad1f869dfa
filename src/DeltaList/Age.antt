-- ===== src/DeltaList/Age.antt =====
-- The decrement of `delta_tick` of common/deltalist.c: every entry has one tick less.
use psnet.Prelude.{
  ℕ, suc, ◌-◌, ◌<◌, ◌≤◌, ◌≡◌, refl, ◌∙◌, sym, ap, subst, inl, inr, true, Option, some, List, ◌∷◌,
  [], map, arith, In, length, sub32, sub32_exact, update, update_self, update_other,
}
use psnet.DeltaList.{Ops, DeltaList}
use psnet.DeltaList.Bucket.{Cell}
use psnet.DeltaList.Queue.{Entry, Linked, Links, Avoids, Apart, last_left, last_at}
use psnet.DeltaList.Order.{IsQueue}
use psnet.DeltaList.Append.{IsTail}
use psnet.DeltaList.Hash.{Placed, cell, slot}
use psnet.DeltaList.Delete.{Represents}
use psnet.DeltaList.Spec.{age}

module _ {D : Type 0} where
  -- `table->delta--` and `table->delta_head->delta--`.
  abbrev pub ticked : DeltaList D → ℕ → DeltaList D
  ticked t head = record t {
    delta = sub32 t.delta 1;
    node_delta = update t.node_delta head (sub32 (t.node_delta head) 1);
  }

  In-map-age :
      (f : Entry D) (es : List (Entry D))
      → In f (map age es)
      → (g : Entry D) × In g es × (f ≡ age g)
  In-map-age f [] i = elim i [ ]
  In-map-age f (e ∷ es) (inl s) = (e, inl refl, s)
  In-map-age f (e ∷ es) (inr i) = let (g, k, s) = In-map-age f es i in (g, inr k, s)

  In-age : (g : Entry D) (es : List (Entry D)) → In g es → In (age g) (map age es)
  In-age g [] i = elim i [ ]
  In-age g (e ∷ es) (inl s) = inl (ap age s)
  In-age g (e ∷ es) (inr i) = inr (In-age g es i)

  Apart-age : (es : List (Entry D)) → Apart es → Apart (map age es)
  Apart-age [] u = tt
  Apart-age (e ∷ es) u = (
    (λ f i.
        let (g, k, s) = In-map-age f es i in λ q. u.0 g k (ap (λ (z : Entry D). z.at) (sym s) ∙ q)),
    Apart-age es u.1,
  )

  Linked-le :
      (t : DeltaList D) (q : Option ℕ) (acc : ℕ) (e : Entry D) → Linked t q acc e → acc ≤ e.left
  Linked-le t q acc e h = omega (arith, h.gap)

  Links-age :
      (t : DeltaList D) (head : ℕ) (q : Option ℕ) (acc : ℕ) (p : Option ℕ) (es : List (Entry D))
      → Avoids head es
      → 0 < acc
      → Links t q acc p es
      → Links (ticked t head) q (acc - 1) p (map age es)
  Links-age t head q acc p [] o pos h = h
  Links-age t head q acc p (e ∷ es) o pos h =
      let kept =
        update_other t.node_delta head (sub32 (t.node_delta head) 1) e.at (o e (inl refl)) in
      let le = Linked-le t q acc e h.1 in
      (
        h.0,
        record {
          holds = h.1.holds;
          back = h.1.back;
          gap = omega (arith, kept, h.1.gap);
          within = omega (arith, h.1.within);
        },
        Links-age t head (some e.at) e.left (t.dl_next e.at) es (λ f i. o f (inr i)) (omega arith)
            h.2,
      )

  last_left-age :
      (t : DeltaList D) (q : Option ℕ) (acc : ℕ) (p : Option ℕ) (es : List (Entry D))
      → Links t q acc p es
      → (last_left (acc - 1) (map age es) ≡ last_left acc es - 1) × (acc ≤ last_left acc es)
  last_left-age t q acc p [] h = (refl, omega arith)
  last_left-age t q acc p (e ∷ es) h =
      let (s, le) = last_left-age t (some e.at) e.left (t.dl_next e.at) es h.2 in
      let low = Linked-le t q acc e h.1 in (s, omega arith)

  last_left-within :
      (t : DeltaList D) (q : Option ℕ) (acc : ℕ) (p : Option ℕ) (es : List (Entry D))
      → acc ≤ t.interval
      → Links t q acc p es
      → last_left acc es ≤ t.interval
  last_left-within t q acc p [] w h = w
  last_left-within t q acc p (e ∷ es) w h =
      last_left-within t (some e.at) e.left (t.dl_next e.at) es h.1.within h.2

  ticked-IsQueue :
      (t : DeltaList D) (e : Entry D) (es : List (Entry D))
      → 0 < e.left
      → IsQueue t (e ∷ es)
      → IsQueue (ticked t e.at) (map age (e ∷ es))
  ticked-IsQueue t e es pos q =
      let (s, le) = last_left-age t (some e.at) e.left (t.dl_next e.at) es q.links.2 in
      let top =
        last_left-within t (some e.at) e.left (t.dl_next e.at) es q.links.1.within q.links.2 in
      let h = q.links.1 in
      let less = update_self t.node_delta e.at (sub32 (t.node_delta e.at) 1) in
      let exact =
        sub32_exact (t.node_delta e.at) 1 (omega (arith, h.gap))
          (omega (arith, h.gap, h.within, q.bound)) in
      record {
        links = (
          q.links.0,
          record {
            holds = h.holds;
            back = h.back;
            gap = omega (arith, less, exact, h.gap);
            within = omega (arith, h.within);
          },
          Links-age t e.at (some e.at) e.left (t.dl_next e.at) es q.apart.0 pos q.links.2,
        );
        apart = Apart-age (e ∷ es) q.apart;
        sum =
            sub32_exact t.delta 1 (omega (arith, q.sum)) (omega (arith, q.sum, q.bound))
            ∙ omega (arith, q.sum, s);
        ticks = q.ticks;
        bound = q.bound;
      }

  length-age : (es : List (Entry D)) → length (map age es) ≡ length es
  length-age [] = refl
  length-age (e ∷ es) = ap suc (length-age es)

  last_at-age : (q : Option ℕ) (es : List (Entry D)) → last_at q (map age es) ≡ last_at q es
  last_at-age q [] = refl
  last_at-age q (e ∷ es) = last_at-age (some e.at) es

  pub ticked-IsTail :
      (t : DeltaList D) (e : Entry D) (es : List (Entry D))
      → IsTail t (e ∷ es)
      → IsTail (ticked t e.at) (map age (e ∷ es))
  ticked-IsTail t e es h = h ∙ sym (last_at-age (some e.at) es)

module _ {D : Type 0} (ops : Ops D) where
  Placed-age :
      (es : List (Entry D)) (i : ℕ) (c : Cell D) → Placed ops es i c → Placed ops (map age es) i c
  Placed-age es i c p = record {
    slot_eq = p.slot_eq;
    entry = age p.entry;
    listed = In-age p.entry es p.listed;
    is_cell = p.is_cell;
  }

  -- After the decrement the table stands for the same entries, each with one tick less.
  pub ticked-Represents :
      (t : DeltaList D) (e : Entry D) (es : List (Entry D))
      → 0 < e.left
      → Represents ops t (e ∷ es)
      → Represents ops (ticked t e.at) (map age (e ∷ es))
  ticked-Represents t e es pos x =
      let i = x.is_table.index in
      record {
        buckets = x.buckets;
        is_table = record {
          queue = ticked-IsQueue t e es pos x.is_table.queue;
          index = record {
            chains = i.chains;
            falls = i.falls;
            placed = λ j c k. Placed-age (e ∷ es) j c (i.placed j c k);
            found = λ f k.
                let (g, m, s) = In-map-age f (e ∷ es) k in
                subst (λ (z : Entry D). In (cell z) (x.buckets (slot ops z.value))) (sym s)
                  (i.found g m);
            unique = λ f f' k k' q.
                let (g, m, s) = In-map-age f (e ∷ es) k in
                let (g', m', s') = In-map-age f' (e ∷ es) k' in
                s
                ∙ ap age (
                    i.unique g g' m m' (
                      subst (λ (z : Entry D). ops.equals g.value z.value ≡ true) s'
                        (subst (λ (z : Entry D). ops.equals z.value f'.value ≡ true) s q)))
                ∙ sym s';
          };
          size = x.is_table.size ∙ sym (length-age (e ∷ es));
          fits = omega (arith, x.is_table.fits, length-age es);
        };
      }
