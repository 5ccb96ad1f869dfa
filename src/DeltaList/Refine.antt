-- ===== src/DeltaList/Refine.antt =====
-- `delta_insert`, `delta_remove`, `delta_contains` and `delta_get` of common/deltalist.c against the
-- sequence of entries that the table stands for.
use psnet.Prelude.{
  ℕ, suc, ◌^◌, ◌<◌, ◌≡◌, refl, sym, subst, ◌⊎◌, inl, inr, true, none, some, List, ◌++◌, In,
  In-middle, length, add32, if◌then◌else◌,
}
use psnet.DeltaList.{Ops, DeltaList, success, failure, alloc, dl_insert_node}
use psnet.DeltaList.Operations.{delta_insert, delta_remove, delta_contains, delta_get}
use psnet.DeltaList.Bucket.{Cell}
use psnet.DeltaList.Queue.{Entry}
use psnet.DeltaList.Order.{Links-holds}
use psnet.DeltaList.Append.{IsTail}
use psnet.DeltaList.Hash.{IsKey, Missed, Hit, slot, get_node-cases}
use psnet.DeltaList.Insert.{hashed, hash_insert-eq}
use psnet.DeltaList.Delete.{
  IsTable, Represents, deleted, alone_of_unique, delta_delete-cases, delta_delete-Missed,
}
use psnet.DeltaList.Grow.{appended, dl_insert_node-sized, appended-Represents, appended-IsTail}
use psnet.DeltaList.Spec.{
  member, find, find_entry, erase, with_entry, freed_by, absent_lem, present_lem,
}

module _ {D : Type 0} (ops : Ops D) where
  delta_insert-Missed :
      (t t' : DeltaList D) (es : List (Entry D)) (d : D)
      → Missed ops t es d
      → dl_insert_node (hashed ops t d) t.brk ≡ some t'
      → delta_insert ops t d ≡ some (record t' { size = add32 t'.size 1 })
  unfolding delta_insert alloc
  delta_insert-Missed t t' es d m done = rw (m.got, hash_insert-eq ops t d, done)

  delta_insert-Hit :
      (t : DeltaList D) (es : List (Entry D)) (bs : ℕ → List (Cell D)) (d : D)
      → Hit ops t es bs d
      → delta_insert ops t d ≡ some t
  unfolding delta_insert
  delta_insert-Hit t es bs d h = rw h.got

  module _ (key : IsKey ops) (t : DeltaList D) (es : List (Entry D)) (d : D)
      (x : Represents ops t es) where
    -- The spec functions at the entry that was found.
    pub hit_lem :
        (h : Hit ops t es x.buckets d)
        → (member ops d es ≡ true)
          × (find ops d es ≡ some h.entry.value)
          × (erase ops d es ≡ h.before ++ h.after)
          × (find_entry ops d es ≡ some h.entry)
    hit_lem h =
        let y = subst (λ xs. IsTable ops t xs x.buckets) h.parts x.is_table in
        subst
          (λ xs.
            (member ops d xs ≡ true)
            × (find ops d xs ≡ some h.entry.value)
            × (erase ops d xs ≡ h.before ++ h.after)
            × (find_entry ops d xs ≡ some h.entry))
          (sym h.parts)
          (present_lem ops d h.before h.entry h.after
            (alone_of_unique ops key t es x d h.before h.entry h.after y h.equal) h.equal)

    pub get_node-choice : Missed ops t es d ⊎ Hit ops t es x.buckets d
    get_node-choice = get_node-cases ops key t es x.buckets x.is_table.index d

    -- `delta_insert` adds an entry with the full interval at the end, unless there is one for the
    -- data already; then it changes nothing.
    pub delta_insert-with_entry :
        IsTail t es
        → suc (length es) < 2 ^ 32
        → (t' : DeltaList D) × (delta_insert ops t d ≡ some t')
          × Represents ops t' (with_entry ops d t.brk t.interval es)
          × IsTail t' (with_entry ops d t.brk t.interval es)
    delta_insert-with_entry tail room = elim get_node-choice [
      | inl m ↦
          let (no_member, _, _, _) = absent_lem ops d es m.absent in
          (
            appended ops t d es,
            delta_insert-Missed t _ es d m
                (dl_insert_node-sized ops key t es x tail room d m.absent t.size),
            rw no_member (appended-Represents ops key t es x tail room d m.absent),
            rw no_member (appended-IsTail ops key t es x tail room d m.absent),
          )
      | inr h ↦
          let (is_member, _, _, _) = hit_lem h in
          (t, delta_insert-Hit t es x.buckets d h, rw is_member x, rw is_member tail)
    ]

    -- `delta_contains` tells whether there is an entry for the data.
    pub delta_contains-member : delta_contains ops t d ≡ some (member ops d es)
    unfolding delta_contains
    delta_contains-member = elim get_node-choice [
      | inl m ↦ rw (m.got, (absent_lem ops d es m.absent).0)
      | inr h ↦ rw (h.got, (hit_lem h).0)
    ]

    -- `delta_get` returns the data that the table holds for equal data, or NULL.
    pub delta_get-find : delta_get ops t d ≡ some (find ops d es)
    unfolding delta_get
    delta_get-find = elim get_node-choice [
      | inl m ↦ rw (m.got, (absent_lem ops d es m.absent).1)
      | inr h ↦
          let i = subst (In h.entry) (sym h.parts) (In-middle h.entry h.before h.after) in
          rw (
            h.got,
            (hit_lem h).1,
            Links-holds t none 0 t.delta_head es h.entry x.is_table.queue.links i,
          )
    ]

    -- What is on record as freed grows by the data that was held, if any was.
    abbrev pub Removed : DeltaList D → Type 0
    Removed t' =
        (delta_remove ops t d ≡ some ((if member ops d es then success else failure), t'))
        × Represents ops t' (erase ops d es)
        × (t'.freed ≡ freed_by (find ops d es) t.freed)
        × (t'.acted ≡ t.acted)
        × (t'.delta_tail ≡ t.delta_tail)

    -- `delta_remove` takes out the entry for the data and frees what it held; without one it
    -- fails and changes nothing.
    pub delta_remove-erase : (t' : DeltaList D) × Removed t'
    unfolding delta_remove
    delta_remove-erase = elim (delta_delete-cases ops key t es x d) [
      | inl m ↦
          let (a, b, c, _) = absent_lem ops d es m.absent in
          (t, (rw a (delta_delete-Missed ops t es d m), rw c x, rw b, refl, refl))
      | inr w ↦
          let (a, b, c, _) =
            subst
              (λ xs.
                (member ops d xs ≡ true)
                × (find ops d xs ≡ some w.entry.value)
                × (erase ops d xs ≡ w.before ++ w.after)
                × (find_entry ops d xs ≡ some w.entry))
              (sym w.parts) (present_lem ops d w.before w.entry w.after w.alone w.equal) in
          (
            deleted ops t w.before w.entry w.after (slot ops d) w.prev,
            (rw a w.done, rw c w.left, rw b, refl, refl),
          )
    ]
