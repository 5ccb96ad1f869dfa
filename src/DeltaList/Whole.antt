-- ===== src/DeltaList/Whole.antt =====
-- The operations of common/deltalist.c on the table as a whole: a fresh table, `delta_foreach`,
-- `delta_clear` and `delta_size`.
use psnet.Prelude.{
  ℕ, zero, suc, ◌^◌, ◌<◌, ◌≤◌, ◌≡◌, refl, ◌∙◌, sym, ap, inl, inr, Bool, Option, none, some, List,
  ◌∷◌, [], map, arith, Bool-cases, In, length, if◌then◌else◌, update, update_self, update_other,
}
use psnet.DeltaList.{Ops, DeltaList, new}
use psnet.DeltaList.Operations.{foreach_loop, delta_foreach, clear_loop, delta_clear, delta_size}
use psnet.DeltaList.Queue.{Entry, Links, Avoids, Apart, Links-frame}
use psnet.DeltaList.Delete.{Represents}

module _ {D : Type 0} where
  -- What `delta_foreach` promises: `fun` sees the data in order, until it asks to cease.
  abbrev pub visit {ℓ} : {S : Type ℓ} → (D → S → S × Bool) → List D → S → S
  visit fun [] arg = arg
  visit fun (d ∷ ds) arg = let r = fun d arg in if r.1 then r.0 else visit fun ds r.0

  foreach_loop-null :
      {S : Type 0} (fuel : ℕ) (t : DeltaList D) (fun : D → S → S × Bool) (arg : S)
      → foreach_loop fuel t fun none arg ≡ some arg
  unfolding foreach_loop
  foreach_loop-null zero t fun arg = refl
  foreach_loop-null (suc fuel) t fun arg = refl

  foreach_loop-some :
      {S : Type 0} (fuel : ℕ) (t : DeltaList D) (fun : D → S → S × Bool) (it : ℕ) (d : D) (arg : S)
      → t.node_data it ≡ some d
      → foreach_loop (suc fuel) t fun (some it) arg ≡ (
          if (fun d arg).1
          then some (fun d arg).0
          else foreach_loop fuel t fun (t.dl_next it) (fun d arg).0)
  unfolding foreach_loop
  foreach_loop-some fuel t fun it d arg h = rw h

  foreach_loop_lem :
      {S : Type 0} (fuel : ℕ) (t : DeltaList D) (fun : D → S → S × Bool) (q : Option ℕ) (acc : ℕ)
      (p : Option ℕ) (es : List (Entry D)) (arg : S)
      → length es ≤ fuel
      → Links t q acc p es
      → foreach_loop fuel t fun p arg ≡ some (visit fun (map (λ e. e.value) es) arg)
  foreach_loop_lem fuel t fun q acc p [] arg le h = rw h (foreach_loop-null fuel t fun arg)
  foreach_loop_lem zero t fun q acc p (e ∷ es) arg le h = absurd (omega arith)
  foreach_loop_lem (suc fuel) t fun q acc p (e ∷ es) arg le h =
      let step =
        ap (λ p. foreach_loop (suc fuel) t fun p arg) h.0
        ∙ foreach_loop-some fuel t fun e.at e.value arg h.1.holds in
      let rest =
        foreach_loop_lem fuel t fun (some e.at) e.left (t.dl_next e.at) es (fun e.value arg).0
          (omega arith) h.2 in
      elim (Bool-cases (fun e.value arg).1) [
        | inl cease ↦ step ∙ rw cease
        | inr go_on ↦ step ∙ rw go_on rest
      ]

  clear_loop-some :
      (fuel : ℕ) (t : DeltaList D) (it : ℕ) (d : D)
      → t.node_data it ≡ some d
      → clear_loop (suc fuel) t (some it)
        ≡ clear_loop fuel (record t { node_data = update t.node_data it none }) (t.dl_next it)
  unfolding clear_loop
  clear_loop-some fuel t it d h = rw h

  clear_loop-null : (fuel : ℕ) (t : DeltaList D) → clear_loop fuel t none ≡ some t
  unfolding clear_loop
  clear_loop-null zero t = refl
  clear_loop-null (suc fuel) t = refl

  -- The nodes of `es` are free again; nothing but `node_data` has changed.
  record Cleared (t t' : DeltaList D) (es : List (Entry D)) : Type 0 where
    emptied : (e : Entry D) → In e es → t'.node_data e.at ≡ none
    kept : (a : ℕ) → Avoids a es → t'.node_data a ≡ t.node_data a
    interval : t'.interval ≡ t.interval
    freed : t'.freed ≡ t.freed

  clear_loop_lem :
      (fuel : ℕ) (t : DeltaList D) (q : Option ℕ) (acc : ℕ) (p : Option ℕ) (es : List (Entry D))
      → length es ≤ fuel
      → Apart es
      → Links t q acc p es
      → (t' : DeltaList D) × (clear_loop fuel t p ≡ some t') × Cleared t t' es
  clear_loop_lem fuel t q acc p [] le u h = (
    t,
    ap (clear_loop fuel t) h ∙ clear_loop-null fuel t,
    record { emptied = λ e i. elim i [ ]; kept = λ a o. refl; interval = refl; freed = refl },
  )
  clear_loop_lem zero t q acc p (e ∷ es) le u h = absurd (omega arith)
  clear_loop_lem (suc fuel) t q acc p (e ∷ es) le u h =
      let t₁ = record t { node_data = update t.node_data e.at none } in
      let rest : Links t₁ (some e.at) e.left (t.dl_next e.at) es =
        Links-frame t t₁ (some e.at) e.left (t.dl_next e.at) es refl
          (λ f i. record {
            holds = update_other t.node_data e.at none f.at (u.0 f i);
            delta = refl;
            next = refl;
            prev = refl;
          })
          h.2 in
      let (t', r, c) =
        clear_loop_lem fuel t₁ (some e.at) e.left (t.dl_next e.at) es (omega arith) u.1 rest in
      (
        t',
        ap (clear_loop (suc fuel) t) h.0 ∙ clear_loop-some fuel t e.at e.value h.1.holds ∙ r,
        record {
          emptied = λ f i. elim i [
            | inl s ↦
                ap (λ (z : Entry D). t'.node_data z.at) s
                ∙ c.kept e.at u.0
                ∙ update_self t.node_data e.at none
            | inr k ↦ c.emptied f k
          ];
          kept = λ a o.
              c.kept a (λ f i. o f (inr i))
              ∙ update_other t.node_data e.at none a (λ s. o e (inl refl) (sym s));
          interval = c.interval;
          freed = c.freed;
        },
      )

module _ {D : Type 0} where
  -- From `delta_head` the list leads through these entries, and the table counts them at least.
  abbrev pub Leads : DeltaList D → List (Entry D) → Type 0
  Leads t es = (length es ≤ t.size) × Links t none 0 t.delta_head es

  pub delta_foreach-Leads :
      {S : Type 0} (t : DeltaList D) (es : List (Entry D)) (fun : D → S → S × Bool) (arg : S)
      → Leads t es
      → delta_foreach t fun arg ≡ some (visit fun (map (λ e. e.value) es) arg)
  unfolding delta_foreach
  delta_foreach-Leads t es fun arg (le, links) =
      foreach_loop_lem t.size t fun none 0 t.delta_head es arg le links

module _ {D : Type 0} (ops : Ops D) where
  pub Represents-Leads : (t : DeltaList D) (es : List (Entry D)) → Represents ops t es → Leads t es
  Represents-Leads t es x = (omega (arith, x.is_table.size), x.is_table.queue.links)

  -- A table whose pointers are NULL stands for no entries.
  empty-Represents :
      (t : DeltaList D)
      → t.size ≡ 0
      → t.delta ≡ 0
      → t.delta_head ≡ none
      → ((i : ℕ) → t.table i ≡ none)
      → 0 < t.interval
      → t.interval < 2 ^ 32
      → Represents ops t []
  empty-Represents t s d h b p w = record {
    buckets = λ _. [];
    is_table = record {
      queue = record { links = h; apart = tt; sum = d; ticks = p; bound = w };
      index = record {
        chains = b;
        falls = λ i. tt;
        placed = λ i c k. absurd k;
        found = λ e k. absurd k;
        unique = λ e f k m s. absurd k;
      };
      size = s;
      fits = omega arith;
    };
  }

  -- A statically initialised table with an interval that fits its type is in good order.
  pub new-Represents : (r n : ℕ) → 0 < n → n < 2 ^ 32 → Represents ops (new {D = D} r n) []
  new-Represents r n p w = empty-Represents (new r n) refl refl refl (λ i. refl) p w

  -- `delta_foreach` runs `fun` over the data of the entries in the order of expiry.
  pub delta_foreach-visit :
      {S : Type 0} (t : DeltaList D) (es : List (Entry D)) (fun : D → S → S × Bool) (arg : S)
      → Represents ops t es
      → delta_foreach t fun arg ≡ some (visit fun (map (λ e. e.value) es) arg)
  delta_foreach-visit t es fun arg x = delta_foreach-Leads t es fun arg (Represents-Leads t es x)

  -- `delta_clear` frees every node and leaves an empty table, but frees none of the data.
  pub delta_clear_lem :
      (t : DeltaList D) (es : List (Entry D))
      → Represents ops t es
      → (t' : DeltaList D) × (delta_clear t ≡ some t')
        × Represents ops t' []
        × ((e : Entry D) → In e es → t'.node_data e.at ≡ none)
        × (t'.freed ≡ t.freed)
  unfolding delta_clear
  delta_clear_lem t es x =
      let (t', r, c) =
        clear_loop_lem t.size t none 0 t.delta_head es (omega (arith, x.is_table.size))
          x.is_table.queue.apart x.is_table.queue.links in
      (
        record t' { size = 0; delta = 0; delta_head = none; delta_tail = none; table = λ _. none },
        rw r,
        empty-Represents _ refl refl refl (λ i. refl)
            (omega (arith, c.interval, x.is_table.queue.ticks))
            (omega (arith, c.interval, x.is_table.queue.bound)),
        c.emptied,
        c.freed,
      )

  -- `delta_size` counts the entries.
  pub delta_size-length :
      (t : DeltaList D) (es : List (Entry D)) → Represents ops t es → delta_size t ≡ length es
  unfolding delta_size
  delta_size-length t es x = x.is_table.size
