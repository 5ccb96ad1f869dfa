-- ===== src/DeltaList/Stale.antt =====
-- `delta_update` of common/deltalist.c on the newest of several entries: `dl_remove_node` does not
-- move `delta_tail`, and `dl_insert_node` then links the node behind itself.
use mathlib.Core.List.{append-nil}
use psnet.Prelude.{
  suc, ◌≡◌, refl, ◌≢◌, ◌∙◌, sym, subst, inl, inr, true, false, none, some, List, ◌∷◌, ◌++◌, [],
  arith, In, In-append_left, In-middle, length, length-append, update, update_self, update_other,
}
use psnet.DeltaList.{Ops, DeltaList, get_node}
use psnet.DeltaList.Operations.{delta_update, delta_contains}
use psnet.DeltaList.Bucket.{last_cell}
use psnet.DeltaList.Update.{delta_update-present}
use psnet.DeltaList.Queue.{Links, Links-frame, Entry, last_at}
use psnet.DeltaList.Unlink.{removed}
use psnet.DeltaList.Order.{IsQueue, Links-holds, Apart-middle, dl_remove_node-eq, without-IsQueue}
use psnet.DeltaList.Append.{dl_insert_node-behind, inserted}
use psnet.DeltaList.Hash.{IsKey, get_node-cases, IsIndex, Hit}
use psnet.DeltaList.Delete.{IsTable, Represents}
use psnet.DeltaList.Refine.{get_node-choice}

module _ {D : Type 0} (ops : Ops D) (key : IsKey ops) (t : DeltaList D) (es : List (Entry D))
    (d : D) (x : Represents ops t es) where
  Hit-of_match :
      (e : Entry D)
      → In e es
      → ops.equals e.value d ≡ true
      → (h : Hit ops t es x.buckets d) × (h.entry ≡ e)
  Hit-of_match e i match = elim (get_node-choice ops key t es d x) [
    | inl m ↦
        let no_match = m.absent e i in absurd (let f : false ≡ true = sym no_match ∙ match in cc)
    | inr h ↦ (
      h,
      x.is_table.index.unique h.entry e
          (subst (In h.entry) (sym h.parts) (In-middle h.entry h.before h.after)) i
          (key.equals_trans h.entry.value d e.value h.equal (key.equals_symm d e.value ∙ match)),
    )
  ]

  contains_of_match :
      (t' : DeltaList D)
      → t'.node_data ≡ t.node_data
      → t'.table ≡ t.table
      → t'.ht_next ≡ t.ht_next
      → t'.brk ≡ t.brk
      → (e : Entry D) → In e es
      → ops.equals e.value d ≡ true
      → delta_contains ops t' d ≡ some true
  unfolding delta_contains
  contains_of_match t' a b c f e i match =
      let index : IsIndex ops t' es x.buckets = record {
        chains = λ j. rw (a, b, c) (x.is_table.index.chains j);
        falls = λ j. rw f (x.is_table.index.falls j);
        placed = x.is_table.index.placed;
        found = x.is_table.index.found;
        unique = x.is_table.index.unique;
      } in
      elim (get_node-cases ops key t' es x.buckets index d) [
        | inl m ↦
            let no_match = m.absent e i in
            absurd (let g : false ≡ true = sym no_match ∙ match in cc)
        | inr h ↦ rw h.got
      ]

  module _ (first : Entry D) (others : List (Entry D)) (e : Entry D)
      (parts : es ≡ first ∷ (others ++ e ∷ [])) (tail : t.delta_tail ≡ some e.at)
      (match : ops.equals e.value d ≡ true) where
    listed : In e es
    listed = subst (In e) (sym parts) (In-middle e (first ∷ others) [])

    table : IsTable ops t (first ∷ (others ++ e ∷ [])) x.buckets
    table = subst (λ xs. IsTable ops t xs x.buckets) parts x.is_table

    abbrev detached : DeltaList D
    detached = removed t e.at none (last_at (some first.at) others)

    abbrev looped : DeltaList D
    looped = inserted detached e.at (some e.at)

    detached-IsQueue : IsQueue detached (first ∷ others)
    detached-IsQueue =
        subst (IsQueue detached) (append-nil (first ∷ others))
          (without-IsQueue t (first ∷ others) e [] table.queue)

    held : t.node_data e.at ≡ some e.value
    held = Links-holds t none 0 t.delta_head es e x.is_table.queue.links listed

    looped-eq : delta_update ops t d ≡ some (1, looped)
    looped-eq =
        let (h, s) = Hit-of_match e listed match in
        let got =
          subst (λ (z : Entry D). get_node ops t d ≡ some (some z.at, last_cell none h.above)) s
            h.got in
        delta_update-present ops t detached looped d e.at _ got
          (dl_remove_node-eq t (first ∷ others) e [] table.queue)
          (dl_insert_node-behind detached e.at first.at e.at e.value e.value held
            detached-IsQueue.links.0 tail held)

    looped-Links : Links looped none 0 looped.delta_head (first ∷ others)
    looped-Links =
        Links-frame detached looped none 0 detached.delta_head (first ∷ others) refl
          (λ f i.
            let off : f.at ≢ e.at =
              Apart-middle (first ∷ others) e [] table.queue.apart f
                (In-append_left f (first ∷ others) [] i) in
            record {
              holds = refl;
              delta = update_other detached.node_delta e.at _ f.at off;
              next =
                  update_other (update detached.dl_next e.at (some e.at)) e.at none f.at off
                  ∙ update_other detached.dl_next e.at (some e.at) f.at off;
              prev = update_other detached.dl_prev e.at (some e.at) f.at off;
            })
          detached-IsQueue.links

    -- The entry is in the hash table and counted, but from `delta_head` the list leads only
    -- through the other entries: it does not expire, and `delta_foreach` does not see it.
    pub delta_update-newest :
        (t' : DeltaList D) × (delta_update ops t d ≡ some (1, t'))
        × Links t' none 0 t'.delta_head (first ∷ others)
        × (t'.size ≡ suc (length (first ∷ others)))
        × (delta_contains ops t' d ≡ some true)
        × (t'.delta_tail ≡ some e.at)
        × (t'.dl_prev e.at ≡ some e.at)
    delta_update-newest = (
      looped,
      looped-eq,
      looped-Links,
      omega (arith, table.size, length-append others (e ∷ [])),
      contains_of_match looped refl refl refl refl e listed match,
      refl,
      update_self detached.dl_prev e.at (some e.at),
    )
