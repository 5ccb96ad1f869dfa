-- ===== src/DeltaList/Grow.antt =====
-- A new node of common/deltalist.c in the hash table and at the end of the delta list.
use psnet.Prelude.{
  ℕ, suc, ◌^◌, ◌<◌, ◌≡◌, refl, false, none, some, List, ◌∷◌, ◌++◌, [], arith, In, length,
  length-append, add32, add32_exact, update_self, update_other,
}
use psnet.DeltaList.{Ops, DeltaList, dl_insert_node}
use psnet.DeltaList.Queue.{Entry, Avoids, last_at}
use psnet.DeltaList.Order.{IsQueue, IsQueue-frame}
use psnet.DeltaList.Append.{
  IsTail, entry, inserted, dl_insert_node-eq, inserted-IsQueue, inserted-IsTail,
}
use psnet.DeltaList.Hash.{IsKey}
use psnet.DeltaList.Insert.{hashed, fresh-Avoids, hashed-IsIndex}
use psnet.DeltaList.Delete.{Represents}

module _ {D : Type 0} (ops : Ops D) where
  -- A new node for `d` in the hash table, but not yet on the delta list.
  abbrev pub sized : DeltaList D → D → ℕ → DeltaList D
  sized t d n = record (hashed ops t d) { size = n }

  -- The state after a new node for `d` has been put at the end.
  abbrev pub appended : DeltaList D → D → List (Entry D) → DeltaList D
  appended t d es = inserted (sized t d (add32 t.size 1)) t.brk (last_at none es)

  module _ (key : IsKey ops) (t : DeltaList D) (es : List (Entry D)) (x : Represents ops t es)
      (tail : IsTail t es) (room : suc (length es) < 2 ^ 32) (d : D)
      (absent : (e : Entry D) → In e es → ops.equals e.value d ≡ false) where
    outside : Avoids t.brk es
    outside = fresh-Avoids ops t key es x.buckets x.is_table.index

    sized-IsQueue : (n : ℕ) → IsQueue (sized t d n) es
    sized-IsQueue n =
        IsQueue-frame t (sized t d n) es refl refl refl
          (λ e i. record {
            holds = update_other t.node_data t.brk (some d) e.at (outside e i);
            delta = refl;
            next = refl;
            prev = refl;
          })
          x.is_table.queue

    sized-IsTail : (n : ℕ) → IsTail (sized t d n) es
    sized-IsTail n = same_tail es tail
      where
        same_tail : (es : List (Entry D)) → IsTail t es → IsTail (sized t d n) es
        same_tail [] h = tt
        same_tail (e ∷ es) h = h

    held : (hashed ops t d).node_data t.brk ≡ some d
    held = update_self t.node_data t.brk (some d)

    pub dl_insert_node-sized :
        (n : ℕ)
        → dl_insert_node (sized t d n) t.brk ≡ some (inserted (sized t d n) t.brk (last_at none es))
    dl_insert_node-sized n =
        dl_insert_node-eq (sized t d n) t.brk d held es (sized-IsQueue n) (sized-IsTail n)

    pub appended-Represents : Represents ops (appended t d es) (es ++ entry t.brk d t.interval ∷ [])
    appended-Represents =
        let (bs, i) =
          hashed-IsIndex ops t key es x.buckets x.is_table.index d t.interval absent
            (appended t d es) refl refl refl refl in
        record {
          buckets = bs;
          is_table = record {
            queue =
                inserted-IsQueue (sized t d (add32 t.size 1)) t.brk d held es
                  (sized-IsQueue (add32 t.size 1)) outside;
            index = i;
            size = omega (
              arith,
              add32_exact t.size 1,
              x.is_table.size,
              length-append es (entry t.brk d t.interval ∷ []),
            );
            fits = omega (arith, length-append es (entry t.brk d t.interval ∷ []));
          };
        }

    pub appended-IsTail : IsTail (appended t d es) (es ++ entry t.brk d t.interval ∷ [])
    appended-IsTail = inserted-IsTail (sized t d (add32 t.size 1)) t.brk d held es
