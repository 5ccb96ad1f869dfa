-- ===== src/DeltaList/Interval.antt =====
-- No operation of common/deltalist.c changes the interval of a table.
use psnet.Prelude.{
  ℕ, zero, suc, ◌≡◌, refl, subst, ◌∷◌, Bool, true, false, Option, none, some, ◌>>=◌, ◌==◌,
  if◌then◌else◌,
}
use psnet.DeltaList.{
  Ops, DeltaList, Rc, alloc, get_node, dl_insert_node, unlink_next, unlink_prev, dl_remove_node,
  hash_insert, ht_unlink, release, delta_delete, expire_step, expire, delta_tick,
}
use psnet.DeltaList.Operations.{update_node, delta_update, delta_remove}

-- What holds of the result, if there is one.
abbrev Result : {A : Type 0} → (A → Type 0) → Option A → Type 0
Result p none = Unit
Result p (some x) = p x

Result-bind :
    {A B : Type 0} (p : A → Type 0) (q : B → Type 0) (o : Option A) (f : A → Option B)
    → Result p o
    → ((x : A) → p x → Result q (f x))
    → Result q (o >>= f)
Result-bind p q none f h k = tt
Result-bind p q (some x) f h k = k x h

Result-any : {A : Type 0} (o : Option A) → Result (λ _. Unit) o
Result-any none = tt
Result-any (some x) = tt

Result-if :
    {A : Type 0} (p : A → Type 0) (b : Bool) (x y : Option A)
    → Result p x
    → Result p y
    → Result p (if b then x else y)
Result-if p true x y h k = h
Result-if p false x y h k = k

Result-elim :
    {A B : Type 0} (p : A → Type 0) (o : Option B) (x : Option A) (f : B → Option A)
    → Result p x
    → ((b : B) → Result p (f b))
    → Result p (elim o [ none ↦ x | some b ↦ f b ])
Result-elim p none x f h k = h
Result-elim p (some b) x f h k = k b

-- Behind the read of a node.
Result-read :
    {A B : Type 0} (p : A → Type 0) (o : Option B) (f : B → Option A)
    → ((b : B) → Result p (f b))
    → Result p (o >>= f)
Result-read p o f h = Result-bind (λ _. Unit) p o f (Result-any o) (λ b _. h b)

module _ {D : Type 0} (n : ℕ) where
  abbrev Keeps : DeltaList D → Type 0
  Keeps t = t.interval ≡ n

  dl_insert_node-Keeps :
      (t : DeltaList D) (node : ℕ) → Keeps t → Result Keeps (dl_insert_node t node)
  unfolding dl_insert_node
  dl_insert_node-Keeps t node h = Result-read Keeps (t.node_data node) _ (λ _.
      Result-bind Keeps Keeps _ _
        (Result-elim Keeps t.delta_head _ _ h (λ _.
          Result-read Keeps t.delta_tail _
            (λ last. Result-read Keeps (t.node_data last) _ (λ _. h))))
        (λ t' k. k))

  unlink_next-Keeps :
      (t : DeltaList D) (node : ℕ) (o : Option ℕ) → Keeps t → Result Keeps (unlink_next t node o)
  unfolding unlink_next
  unlink_next-Keeps t node none h = h
  unlink_next-Keeps t node (some next) h = Result-read Keeps (t.node_data next) _ (λ _. h)

  unlink_prev-Keeps :
      (t : DeltaList D) (node : ℕ) (o : Option ℕ) → Keeps t → Result Keeps (unlink_prev t node o)
  unfolding unlink_prev
  unlink_prev-Keeps t node none h = h
  unlink_prev-Keeps t node (some prev) h = Result-read Keeps (t.node_data prev) _ (λ _. h)

  dl_remove_node-Keeps :
      (t : DeltaList D) (node : ℕ) → Keeps t → Result Keeps (dl_remove_node t node)
  unfolding dl_remove_node
  dl_remove_node-Keeps t node h = Result-read Keeps (t.node_data node) _ (λ _.
      Result-bind Keeps Keeps _ _ (unlink_next-Keeps t node (t.dl_next node) h)
        (λ t' k. unlink_prev-Keeps t' node (t'.dl_prev node) k))

  module _ (ops : Ops D) where
    hash_insert-Keeps :
        (t : DeltaList D) (node : ℕ) → Keeps t → Result Keeps (hash_insert ops t node)
    unfolding hash_insert
    hash_insert-Keeps t node h = Result-read Keeps (t.node_data node) _ (λ _. h)

    ht_unlink-Keeps :
        (t : DeltaList D) (d : D) (node : ℕ) (o : Option ℕ)
        → Keeps t
        → Result Keeps (ht_unlink ops t d node o)
    unfolding ht_unlink
    ht_unlink-Keeps t d node none h = Result-read Keeps (t.node_data node) _ (λ _. h)
    ht_unlink-Keeps t d node (some prev) h =
        Result-read Keeps (t.node_data node) _
          (λ _. Result-read Keeps (t.node_data prev) _ (λ _. h))

    release-Keeps : (t : DeltaList D) (node : ℕ) → Keeps t → Result Keeps (release ops t node)
    unfolding release
    release-Keeps t node h = Result-read Keeps (t.node_data node) _ (λ _. h)

    abbrev Kept : {A : Type 0} → A × DeltaList D → Type 0
    Kept r = Keeps r.1

    delta_delete-Kept :
        (t : DeltaList D) (d : D) → Keeps t → Result (Kept {A = Rc}) (delta_delete ops t d)
    unfolding delta_delete
    delta_delete-Kept t d h = Result-read Kept (get_node ops t d) _ (λ r.
        Result-elim Kept r.0 _ _ h (λ node.
          Result-bind Keeps Kept _ _ (ht_unlink-Keeps t d node r.1 h) (λ t₁ h₁.
            Result-bind Keeps Kept _ _ (dl_remove_node-Keeps t₁ node h₁)
              (λ t₂ h₂. Result-bind Keeps Kept _ _ (release-Keeps t₂ node h₂) (λ t₃ h₃. h₃)))))

    expire_step-Keeps :
        (t : DeltaList D) (again : DeltaList D → Option (DeltaList D)) (o : Option ℕ)
        → Keeps t
        → ((t' : DeltaList D) → Keeps t' → Result Keeps (again t'))
        → Result Keeps (expire_step ops t again o)
    unfolding expire_step
    expire_step-Keeps t again none h k = h
    expire_step-Keeps t again (some head) h k = Result-read Keeps (t.node_data head) _ (λ x.
        Result-if Keeps (t.node_delta head == 0) _ _
          (Result-bind Kept Keeps _ _ (delta_delete-Kept (record t { acted = x ∷ t.acted }) x h)
            (λ r q. k r.1 q))
          h)

    expire-Keeps : (fuel : ℕ) (t : DeltaList D) → Keeps t → Result Keeps (expire ops fuel t)
    unfolding expire
    expire-Keeps zero t h = tt
    expire-Keeps (suc fuel) t h =
        expire_step-Keeps t (λ t'. expire ops fuel t') t.delta_head h
          (λ t' k. expire-Keeps fuel t' k)

    delta_tick-Keeps : (t : DeltaList D) → Keeps t → Result Keeps (delta_tick ops t)
    unfolding delta_tick
    delta_tick-Keeps t h =
        Result-elim Keeps t.delta_head _ _ h
          (λ head. Result-read Keeps (t.node_data head) _ (λ _. expire-Keeps (suc t.size) _ h))

    update_node-Keeps :
        (t : DeltaList D) (d : D) (o : Option ℕ)
        → Keeps t
        → Result (λ (r : ℕ × ℕ × DeltaList D). Keeps r.2) (update_node ops t d o)
    unfolding update_node alloc
    update_node-Keeps t d (some node) h =
        Result-bind Keeps _ _ _ (dl_remove_node-Keeps t node h) (λ t' k. k)
    update_node-Keeps t d none h = Result-bind Keeps _ _ _ (hash_insert-Keeps _ t.brk h) (λ t' k. k)

    delta_update-Kept :
        (t : DeltaList D) (d : D) → Keeps t → Result (Kept {A = ℕ}) (delta_update ops t d)
    unfolding delta_update
    delta_update-Kept t d h = Result-read Kept (get_node ops t d) _ (λ r.
        Result-bind (λ (q : ℕ × ℕ × DeltaList D). Keeps q.2) Kept _ _ (update_node-Keeps t d r.0 h)
          (λ q k. Result-bind Keeps Kept _ _ (dl_insert_node-Keeps q.2 q.1 k) (λ t₂ h₂. h₂)))

module _ {D : Type 0} (ops : Ops D) (t : DeltaList D) where
  pub delta_tick-interval :
      (t' : DeltaList D) → delta_tick ops t ≡ some t' → t'.interval ≡ t.interval
  delta_tick-interval t' run =
      subst (Result (Keeps t.interval)) run (delta_tick-Keeps t.interval ops t refl)

  pub delta_update-interval :
      (d : D) (r : ℕ × DeltaList D) → delta_update ops t d ≡ some r → r.1.interval ≡ t.interval
  delta_update-interval d r run =
      subst (Result (Kept t.interval ops)) run (delta_update-Kept t.interval ops t d refl)

  pub delta_remove-interval :
      (d : D) (r : Rc × DeltaList D) → delta_remove ops t d ≡ some r → r.1.interval ≡ t.interval
  unfolding delta_remove
  delta_remove-interval d r run =
      subst (Result (Kept t.interval ops)) run (delta_delete-Kept t.interval ops t d refl)
