-- ===== src/DeltaList/Operations.antt =====
-- The operations of include/deltalist.h, each under the lock of the table (common/deltalist.c); the clock
-- thread's delta_tick is beside the steps that they share.
use psnet.Prelude.{
  ℕ, zero, suc, Bool, true, false, Option, none, some, if◌then◌else◌, ◌>>=◌, update, add32,
}
use psnet.DeltaList.{
  Ops, DeltaList, Rc, alloc, dl_insert_node, dl_remove_node, get_node, hash_insert, delta_delete,
}

module _ {D : Type 0} where
  unfoldable pub foreach_loop :
      {S : Type 0} → ℕ → DeltaList D → (D → S → S × Bool) → Option ℕ → S → Option S
  foreach_loop fuel t fun none arg = some arg
  foreach_loop zero t fun (some it) arg = none
  foreach_loop (suc fuel) t fun (some it) arg = do
    d ← t.node_data it
    let r = fun d arg
    if r.1 then some r.0 else foreach_loop fuel t fun (t.dl_next it) r.0

  -- `fun` takes what `arg` points to and returns it changed, with whether the iteration ceases.
  unfoldable pub delta_foreach : {S : Type 0} → DeltaList D → (D → S → S × Bool) → S → Option S
  unfolding foreach_loop
  delta_foreach t fun arg = foreach_loop t.size t fun t.delta_head arg

  unfoldable pub clear_loop : ℕ → DeltaList D → Option ℕ → Option (DeltaList D)
  clear_loop fuel t none = some t
  clear_loop zero t (some it) = none
  clear_loop (suc fuel) t (some it) = do
    _ ← t.node_data it
    clear_loop fuel (record t { node_data = update t.node_data it none }) (t.dl_next it)

  unfoldable pub delta_clear : DeltaList D → Option (DeltaList D)
  unfolding clear_loop
  delta_clear t = do
    t' ← clear_loop t.size t t.delta_head
    some
        (record t' { size = 0; delta = 0; delta_head = none; delta_tail = none; table = λ _. none })

  unfoldable pub delta_size : DeltaList D → ℕ
  delta_size t = t.size

module _ {D : Type 0} (ops : Ops D) where
  unfoldable pub delta_insert : DeltaList D → D → Option (DeltaList D)
  delta_insert t d = do
    (found, _) ← get_node ops t d
    elim found [
      | some _ ↦ some t
      | none ↦ do
        let (node, t₁) = alloc t d
        t₂ ← hash_insert ops t₁ node
        t₃ ← dl_insert_node t₂ node
        some (record t₃ { size = add32 t₃.size 1 })
    ]

  -- The node of `delta_update`: the one that holds the data, taken off the delta list, or a new one.
  unfoldable pub update_node : DeltaList D → D → Option ℕ → Option (ℕ × ℕ × DeltaList D)
  update_node t d (some node) = do t' ← dl_remove_node t node; some (1, node, t')
  update_node t d none = do
    let (node, t₁) = alloc t d
    t₂ ← hash_insert ops t₁ node
    some (0, node, record t₂ { size = add32 t₂.size 1 })

  unfoldable pub delta_update : DeltaList D → D → Option (ℕ × DeltaList D)
  delta_update t d = do
    (found, _) ← get_node ops t d
    (rc, node, t₁) ← update_node t d found
    t₂ ← dl_insert_node t₁ node
    some (rc, t₂)

  unfoldable pub delta_remove : DeltaList D → D → Option (Rc × DeltaList D)
  unfolding delta_delete
  delta_remove t d = delta_delete ops t d

  unfoldable pub delta_contains : DeltaList D → D → Option Bool
  delta_contains t d = do
    (found, _) ← get_node ops t d
    some (elim found [ some _ ↦ true | none ↦ false ])

  unfoldable pub delta_get : DeltaList D → D → Option (Option D)
  delta_get t d = do
    (found, _) ← get_node ops t d
    elim found [ none ↦ some none | some node ↦ (do x ← t.node_data node; some (some x)) ]
