-- ===== src/DeltaList/Update.antt =====
-- `delta_update` of common/deltalist.c: an entry is renewed, or a new one is put at the end.
use psnet.Prelude.{
  ℕ, suc, ◌^◌, ◌<◌, ◌≡◌, refl, ◌∙◌, sym, ap, subst, inl, inr, false, Option, none, some, List, ◌∷◌,
  ◌++◌, [], arith, In-middle, length, length-append, add32, if◌then◌else◌,
}
use psnet.DeltaList.{Ops, DeltaList, get_node, alloc, dl_insert_node, dl_remove_node}
use psnet.DeltaList.Operations.{update_node, delta_update}
use psnet.DeltaList.Queue.{Entry, head_at, last_at}
use psnet.DeltaList.Unlink.{removed}
use psnet.DeltaList.Order.{Links-holds, Apart-middle, dl_remove_node-eq, without-IsQueue}
use psnet.DeltaList.Append.{
  IsTail, entry, inserted, dl_insert_node-eq, inserted-IsQueue, inserted-IsTail,
}
use psnet.DeltaList.Hash.{IsKey, Missed, Hit}
use psnet.DeltaList.Insert.{hash_insert-eq}
use psnet.DeltaList.Delete.{IsTable, Represents}
use psnet.DeltaList.Grow.{
  sized, appended, dl_insert_node-sized, appended-Represents, appended-IsTail,
}
use psnet.DeltaList.Refine.{hit_lem, get_node-choice}
use psnet.DeltaList.Refresh.{erase-IsTail, moved-IsIndex}
use psnet.DeltaList.Spec.{member, find_entry, is_newest, refresh, refresh_by, absent_lem}

module _ {D : Type 0} (ops : Ops D) where
  delta_update-absent :
      (t t' : DeltaList D) (es : List (Entry D)) (d : D)
      → Missed ops t es d
      → dl_insert_node (sized ops t d (add32 t.size 1)) t.brk ≡ some t'
      → delta_update ops t d ≡ some (0, t')
  unfolding delta_update update_node alloc
  delta_update-absent t t' es d m done = rw (m.got, hash_insert-eq ops t d, done)

  pub delta_update-present :
      (t t₁ t₂ : DeltaList D) (d : D) (node : ℕ) (last : Option ℕ)
      → get_node ops t d ≡ some (some node, last)
      → dl_remove_node t node ≡ some t₁
      → dl_insert_node t₁ node ≡ some t₂
      → delta_update ops t d ≡ some (1, t₂)
  unfolding delta_update update_node
  delta_update-present t t₁ t₂ d node last a b c = rw (a, b, c)

  module _ (key : IsKey ops) (t : DeltaList D) (es : List (Entry D)) (d : D)
      (x : Represents ops t es) where
    abbrev Updated : (List (Entry D)) → Type 0
    Updated after =
        (t' : DeltaList D) × (delta_update ops t d ≡ some ((if member ops d es then 1 else 0), t'))
        × Represents ops t' after
        × IsTail t' after

    renew :
        IsTail t es
        → is_newest ops d es ≡ false
        → Hit ops t es x.buckets d
        → Updated (refresh ops d t.brk t.interval es)
    renew tail old h =
        let (is_member, _, erased, is_found) = hit_lem ops key t es d x h in
        let l = h.before in
        let e = h.entry in
        let r = h.after in
        let y = subst (λ xs. IsTable ops t xs x.buckets) h.parts x.is_table in
        let t₁ = removed t e.at (head_at r) (last_at none l) in
        let off = Apart-middle l e r y.queue.apart in
        let held =
          Links-holds t none 0 t.delta_head (l ++ e ∷ r) e y.queue.links (In-middle e l r) in
        let q = without-IsQueue t l e r y.queue in
        let tail₁ : IsTail t₁ (l ++ r) =
          subst (IsTail t₁) erased (erase-IsTail ops t t₁ d es refl old tail) in
        let t₂ = inserted t₁ e.at (last_at none (l ++ r)) in
        let same : refresh ops d t.brk t.interval es
            ≡ (l ++ r) ++ entry e.at e.value t.interval ∷ [] =
          ap (λ f. refresh_by ops d f t.brk t.interval es) is_found
          ∙ ap (λ xs. xs ++ entry e.at e.value t.interval ∷ []) erased in
        (
          t₂,
          rw is_member (
              delta_update-present t t₁ t₂ d e.at _ h.got (dl_remove_node-eq t l e r y.queue)
                (dl_insert_node-eq t₁ e.at e.value held (l ++ r) q tail₁)),
          subst (Represents ops t₂) (sym same) (record {
            buckets = x.buckets;
            is_table = record {
              queue = inserted-IsQueue t₁ e.at e.value held (l ++ r) q off;
              index = moved-IsIndex ops t l e r x.buckets y t.interval t₂ refl refl refl refl;
              size = omega (
                arith,
                y.size,
                length-append l (e ∷ r),
                length-append l r,
                length-append (l ++ r) (entry e.at e.value t.interval ∷ []),
              );
              fits = omega (
                arith,
                y.fits,
                length-append l (e ∷ r),
                length-append l r,
                length-append (l ++ r) (entry e.at e.value t.interval ∷ []),
              );
            };
          }),
          subst (IsTail t₂) (sym same) (inserted-IsTail t₁ e.at e.value held (l ++ r)),
        )

    -- `delta_update` gives the entry for the data the full interval again and puts it at the end,
    -- or makes a new entry there, and returns 1 or 0 for the two cases; provided that the entry
    -- is not the newest of several.
    pub delta_update-refresh :
        IsTail t es
        → suc (length es) < 2 ^ 32
        → is_newest ops d es ≡ false
        → Updated (refresh ops d t.brk t.interval es)
    delta_update-refresh tail room old = elim (get_node-choice ops key t es d x) [
      | inr h ↦ renew tail old h
      | inl m ↦
          let (no_member, _, _, no_entry) = absent_lem ops d es m.absent in
          (
            appended ops t d es,
            rw no_member (
                delta_update-absent t _ es d m
                  (dl_insert_node-sized ops key t es x tail room d m.absent (add32 t.size 1))),
            subst (Represents ops (appended ops t d es)) (sym (same no_entry))
                (appended-Represents ops key t es x tail room d m.absent),
            subst (IsTail (appended ops t d es)) (sym (same no_entry))
                (appended-IsTail ops key t es x tail room d m.absent),
          )
    ]
      where
        same :
            find_entry ops d es ≡ none
            → refresh ops d t.brk t.interval es ≡ es ++ entry t.brk d t.interval ∷ []
        same e = ap (λ f. refresh_by ops d f t.brk t.interval es) e
