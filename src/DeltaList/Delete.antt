-- ===== src/DeltaList/Delete.antt =====
-- `delta_delete` of common/deltalist.c, whole: hash table, delta list and size together.
use psnet.Prelude.{
  ℕ, suc, ◌^◌, ◌<◌, ◌≡◌, refl, ◌∙◌, ap, subst, ◌⊎◌, inl, inr, true, false, Option, none, some, List,
  ◌∷◌, ◌++◌, [], arith, Bool-cases, In, In-middle, In-append_left, length, sub32, sub32_exact,
  update_other,
}
use psnet.DeltaList.{
  Ops, DeltaList, success, failure, get_node, ht_unlink, release, delta_delete, dl_remove_node,
}
use psnet.DeltaList.Bucket.{Cell, last_cell}
use psnet.DeltaList.Queue.{Entry, Avoids, head_at, last_at}
use psnet.DeltaList.Unlink.{removed}
use psnet.DeltaList.Order.{
  IsQueue, IsQueue-frame, Links-holds, Apart-middle, dl_remove_node-eq, without-IsQueue,
}
use psnet.DeltaList.Hash.{IsKey, IsIndex, Missed, get_node-cases, cell, slot, slot-equal}
use psnet.DeltaList.Unhash.{ht_unlink-eq, without-IsIndex, buckets_without}
use psnet.DeltaList.Detach.{unhashed, forgotten}

module _ {D : Type 0} (ops : Ops D) where
  -- The table stands for the entries `es`: the delta list holds them in order, the buckets index
  -- them, and `size` counts them.
  pub record IsTable (t : DeltaList D) (es : List (Entry D)) (bs : ℕ → List (Cell D)) : Type 0 where
    pub queue : IsQueue t es
    pub index : IsIndex ops t es bs
    pub size : t.size ≡ length es
    pub fits : length es < 2 ^ 32

  pub record Represents (t : DeltaList D) (es : List (Entry D)) : Type 0 where
    pub buckets : ℕ → List (Cell D)
    pub is_table : IsTable t es buckets

  -- The state in which `delta_delete` leaves the table.
  abbrev pub deleted :
      DeltaList D
      → (l : List (Entry D)) (e : Entry D) (r : List (Entry D)) (i : ℕ) (prev : Option ℕ)
      → DeltaList D
  deleted t l e r i prev =
      let t₂ = removed (unhashed t i e.at prev) e.at (head_at r) (last_at none l) in
      record t₂ {
        size = sub32 t.size 1;
        freed = e.value ∷ t.freed;
        node_data = forgotten t.node_data e.at;
      }

  release_lem :
      (t : DeltaList D) (node : ℕ) (x : D)
      → t.node_data node ≡ some x
      → release ops t node
        ≡ some (record t {
          size = sub32 t.size 1;
          freed = x ∷ t.freed;
          node_data = forgotten t.node_data node;
        })
  unfolding release
  release_lem t node x h = rw h

  delta_delete-found :
      (t t₁ t₂ t₃ : DeltaList D) (d : D) (node : ℕ) (prev : Option ℕ)
      → get_node ops t d ≡ some (some node, prev)
      → ht_unlink ops t d node prev ≡ some t₁
      → dl_remove_node t₁ node ≡ some t₂
      → release ops t₂ node ≡ some t₃
      → delta_delete ops t d ≡ some (success, t₃)
  unfolding delta_delete
  delta_delete-found t t₁ t₂ t₃ d node prev a b c e = rw (a, b, c, e)

  pub delta_delete-Missed :
      (t : DeltaList D) (es : List (Entry D)) (d : D)
      → Missed ops t es d
      → delta_delete ops t d ≡ some (failure, t)
  unfolding delta_delete
  delta_delete-Missed t es d m = rw m.got

  module _ (t : DeltaList D) (l : List (Entry D)) (e : Entry D) (r : List (Entry D))
      (bs : ℕ → List (Cell D)) (x : IsTable t (l ++ e ∷ r) bs) (d : D)
      (equal : slot ops e.value ≡ slot ops d) (above below : List (Cell D))
      (bucket : bs (slot ops d) ≡ above ++ cell e ∷ below)
      (got : get_node ops t d ≡ some (some e.at, last_cell none above)) where
    off : Avoids e.at (l ++ r)
    off = Apart-middle l e r x.queue.apart

    abbrev pub gone : DeltaList D
    gone = deleted t l e r (slot ops d) (last_cell none above)

    held : t.node_data e.at ≡ some e.value
    held = Links-holds t none 0 t.delta_head (l ++ e ∷ r) e x.queue.links (In-middle e l r)

    -- The hash half leaves the delta list alone.
    unhashed-IsQueue : IsQueue (unhashed t (slot ops d) e.at (last_cell none above)) (l ++ e ∷ r)
    unhashed-IsQueue =
        IsQueue-frame t _ (l ++ e ∷ r) refl refl refl
          (λ f i. record { holds = refl; delta = refl; next = refl; prev = refl }) x.queue

    pub delta_delete-eq : delta_delete ops t d ≡ some (success, gone)
    delta_delete-eq =
        let t₁ = unhashed t (slot ops d) e.at (last_cell none above) in
        let t₂ = removed t₁ e.at (head_at r) (last_at none l) in
        delta_delete-found t t₁ t₂ gone d e.at (last_cell none above) got
          (ht_unlink-eq ops t l e r bs x.index off (slot ops d) above below bucket d refl)
          (dl_remove_node-eq t₁ l e r unhashed-IsQueue) (release_lem t₂ e.at e.value held)

    length-middle : (l : List (Entry D)) → length (l ++ e ∷ r) ≡ suc (length (l ++ r))
    length-middle [] = refl
    length-middle (y ∷ l) = ap suc (length-middle l)

    gone-IsQueue : IsQueue gone (l ++ r)
    gone-IsQueue =
        let q =
          without-IsQueue (unhashed t (slot ops d) e.at (last_cell none above)) l e r
            unhashed-IsQueue in
        IsQueue-frame _ gone (l ++ r) refl refl refl
          (λ f i. record {
            holds = update_other t.node_data e.at none f.at (off f i);
            delta = refl;
            next = refl;
            prev = refl;
          })
          q

    pub gone-Represents : Represents gone (l ++ r)
    gone-Represents = record {
      buckets = buckets_without ops t l e r bs x.index off (slot ops d) above below bucket;
      is_table = record {
        queue = gone-IsQueue;
        index =
            without-IsIndex ops t l e r bs x.index off (slot ops d) above below bucket gone refl
              refl refl refl;
        size = omega (arith, x.size, x.fits, length-middle l, sub32_exact t.size 1);
        fits = omega (arith, length-middle l, x.fits);
      };
    }

  -- What `delta_delete` does to a table that holds equal data.
  pub record Deleted (t : DeltaList D) (d : D) (es : List (Entry D)) : Type 0 where
    pub before : List (Entry D)
    pub entry : Entry D
    pub after : List (Entry D)
    pub parts : es ≡ before ++ entry ∷ after
    pub equal : ops.equals entry.value d ≡ true
    pub prev : Option ℕ
    pub done : delta_delete ops t d ≡ some (success, deleted t before entry after (slot ops d) prev)
    pub left : Represents (deleted t before entry after (slot ops d) prev) (before ++ after)
    pub alone : (f : Entry D) → In f before → ops.equals f.value d ≡ false

  module _ (key : IsKey ops) (t : DeltaList D) (es : List (Entry D)) (x : Represents t es)
      (d : D) where
    pub alone_of_unique :
        (l : List (Entry D)) (e : Entry D) (r : List (Entry D))
        → IsTable t (l ++ e ∷ r) x.buckets
        → ops.equals e.value d ≡ true
        → (f : Entry D) → In f l
        → ops.equals f.value d ≡ false
    alone_of_unique l e r y s f i = elim (Bool-cases (ops.equals f.value d)) [
      | inr no_match ↦ no_match
      | inl m ↦
          let s' : ops.equals d e.value ≡ true = key.equals_symm d e.value ∙ s in
          let same =
            y.index.unique f e (In-append_left f l (e ∷ r) i) (In-middle e l r)
              (key.equals_trans f.value d e.value m s') in
          absurd (
            Apart-middle l e r y.queue.apart f (In-append_left f l r i)
              (ap (λ (z : Entry D). z.at) same))
    ]

    pub delta_delete-cases : Missed ops t es d ⊎ Deleted t d es
    delta_delete-cases = elim (get_node-cases ops key t es x.buckets x.is_table.index d) [
      | inl m ↦ inl m
      | inr h ↦
          let y = subst (λ xs. IsTable t xs x.buckets) h.parts x.is_table in
          let s = slot-equal ops key t es x.buckets x.is_table.index d h.entry.value h.equal in
          inr (record {
            before = h.before;
            entry = h.entry;
            after = h.after;
            parts = h.parts;
            equal = h.equal;
            prev = last_cell none h.above;
            done =
                delta_delete-eq t h.before h.entry h.after x.buckets y d s h.above h.below h.bucket
                  h.got;
            left =
                gone-Represents t h.before h.entry h.after x.buckets y d s h.above h.below h.bucket
                  h.got;
            alone = alone_of_unique h.before h.entry h.after y h.equal;
          })
    ]
