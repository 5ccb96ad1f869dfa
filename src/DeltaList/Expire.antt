-- ===== src/DeltaList/Expire.antt =====
-- The loop of `delta_tick` of common/deltalist.c: the entries in front that have run out are reported
-- and deleted.
use psnet.Prelude.{
  ℕ, zero, suc, ◌%◌, ◌<◌, ◌≡◌, refl, ◌∙◌, sym, ap, subst, inl, inr, true, false, Option, none, some,
  List, ◌∷◌, ◌++◌, [], arith, Bool-cases, In, length, ◌==◌,
}
use psnet.DeltaList.{Ops, DeltaList, success, delta_delete, expire_step, expire}
use psnet.DeltaList.Queue.{Entry}
use psnet.DeltaList.Order.{IsQueue-frame}
use psnet.DeltaList.Hash.{IsKey}
use psnet.DeltaList.Delete.{Represents, Deleted, deleted, delta_delete-cases}
use psnet.DeltaList.Spec.{IsSelfEqual, drop_due, log_due}

module _ {D : Type 0} (ops : Ops D) where
  -- The call of `act` is on record only.
  abbrev pub acting : DeltaList D → D → DeltaList D
  acting t v = record t { acted = v ∷ t.acted }

  acting-Represents :
      (t : DeltaList D) (v : D) (es : List (Entry D))
      → Represents ops t es
      → Represents ops (acting t v) es
  acting-Represents t v es x = record {
    buckets = x.buckets;
    is_table = record {
      queue =
          IsQueue-frame t (acting t v) es refl refl refl
            (λ e i. record { holds = refl; delta = refl; next = refl; prev = refl })
            x.is_table.queue;
      index = record {
        chains = x.is_table.index.chains;
        falls = x.is_table.index.falls;
        placed = x.is_table.index.placed;
        found = x.is_table.index.found;
        unique = x.is_table.index.unique;
      };
      size = x.is_table.size;
      fits = x.is_table.fits;
    };
  }

  -- The outcome of a deletion of the first entry.
  record Popped (t t' : DeltaList D) (e : Entry D) (es : List (Entry D)) : Type 0 where
    done : delta_delete ops t e.value ≡ some (success, t')
    left : Represents ops t' es
    acted : t'.acted ≡ t.acted
    freed : t'.freed ≡ e.value ∷ t.freed
    tail : t'.delta_tail ≡ t.delta_tail

  cons-injective :
      (a b : Entry D) (xs ys : List (Entry D))
      → ◌≡◌ {A = List (Entry D)} (a ∷ xs) (b ∷ ys)
      → (a ≡ b) × (xs ≡ ys)
  cons-injective a b xs ys e = (cc, cc)

  delta_delete-first :
      (key : IsKey ops) (t : DeltaList D) (e : Entry D) (es : List (Entry D))
      → ops.equals e.value e.value ≡ true
      → Represents ops t (e ∷ es)
      → (t' : DeltaList D) × Popped t t' e es
  delta_delete-first key t e es self x = elim (delta_delete-cases ops key t (e ∷ es) x e.value) [
    | inl m ↦
        let no_match = m.absent e (inl refl) in
        let match = self in absurd (let f : false ≡ true = sym no_match ∙ match in cc)
    | inr w ↦ go w w.before w.parts w.done w.left w.alone
  ]
    where
      go :
          (w : Deleted ops t e.value (e ∷ es)) (before : List (Entry D))
          → e ∷ es ≡ before ++ w.entry ∷ w.after
          → delta_delete ops t e.value
            ≡ some (success, deleted ops t before w.entry w.after (ops.hash e.value % 10) w.prev)
          → Represents ops
              (deleted ops t before w.entry w.after (ops.hash e.value % 10) w.prev)
              (before ++ w.after)
          → ((f : Entry D) → In f before → ops.equals f.value e.value ≡ false)
          → (t' : DeltaList D) × Popped t t' e es
      go w [] p d l a =
          let (same, rest) = cons-injective e w.entry es w.after p in
          (
            deleted ops t [] w.entry w.after (ops.hash e.value % 10) w.prev,
            record {
              done = d;
              left =
                  subst
                    (Represents ops
                      (deleted ops t [] w.entry w.after (ops.hash e.value % 10) w.prev))
                    (sym rest) l;
              acted = refl;
              freed = ap (λ (z : Entry D). z.value ∷ t.freed) (sym same);
              tail = refl;
            },
          )
      go w (f ∷ before) p d l a =
          let (same, rest) = cons-injective e f es (before ++ w.entry ∷ w.after) p in
          let no_match = a f (inl refl) in
          let match = subst (λ (z : Entry D). ops.equals z.value e.value ≡ true) same self in
          absurd (let b : false ≡ true = sym no_match ∙ match in cc)

  -- What the loop of `delta_tick` achieves.
  abbrev pub Expired : DeltaList D → List (Entry D) → Option (DeltaList D) → Type 0
  Expired t es r =
      (t' : DeltaList D) × (r ≡ some t')
      × Represents ops t' (drop_due es)
      × (t'.acted ≡ log_due es t.acted)
      × (t'.freed ≡ log_due es t.freed)
      × (t'.delta_tail ≡ t.delta_tail)

  expire_step-null :
      (t : DeltaList D) (again : DeltaList D → Option (DeltaList D))
      → expire_step ops t again none ≡ some t
  unfolding expire_step
  expire_step-null t again = refl

  expire_step-keep :
      (t : DeltaList D) (again : DeltaList D → Option (DeltaList D)) (head : ℕ) (v : D)
      → t.node_data head ≡ some v
      → (t.node_delta head == 0) ≡ false
      → expire_step ops t again (some head) ≡ some t
  unfolding expire_step
  expire_step-keep t again head v d k = rw (d, k)

  expire_step-drop :
      (t t' : DeltaList D) (again : DeltaList D → Option (DeltaList D)) (head : ℕ) (v : D)
      → t.node_data head ≡ some v
      → (t.node_delta head == 0) ≡ true
      → delta_delete ops (acting t v) v ≡ some (success, t')
      → expire_step ops t again (some head) ≡ again t'
  unfolding expire_step
  expire_step-drop t t' again head v d k e = rw (d, k, e)

  expire-at :
      (fuel : ℕ) (t : DeltaList D) (p : Option ℕ)
      → t.delta_head ≡ p
      → expire ops (suc fuel) t ≡ expire_step ops t (λ t'. expire ops fuel t') p
  unfolding expire
  expire-at fuel t p h = ap (expire_step ops t (λ t'. expire ops fuel t')) h

  pub expire_lem :
      (key : IsKey ops) (fuel : ℕ) (t : DeltaList D) (es : List (Entry D))
      → length es < fuel
      → IsSelfEqual ops es
      → Represents ops t es
      → Expired t es (expire ops fuel t)
  expire_lem key zero t es lt self x = absurd (omega arith)
  expire_lem key (suc fuel) t [] lt self x =
      (t, expire-at fuel t none x.is_table.queue.links ∙ expire_step-null t _, x, refl, refl, refl)
  expire_lem key (suc fuel) t (e ∷ es) lt self x =
      let h = x.is_table.queue.links in
      elim (Bool-cases (e.left == 0)) [
        | inr keep ↦ rw keep (
          t,
          expire-at fuel t (some e.at) h.0
              ∙ expire_step-keep t _ e.at e.value h.1.holds (ground (arith, h.1.gap)),
          x,
          refl,
          refl,
          refl,
        )
        | inl gone ↦
            let (t', p) =
              delta_delete-first key (acting t e.value) e es self.0
                (acting-Represents t e.value (e ∷ es) x) in
            let (t'', r, y, a, f, m) = expire_lem key fuel t' es (omega arith) self.1 p.left in
            rw gone (
              t'',
              expire-at fuel t (some e.at) h.0
                  ∙ expire_step-drop t t' _ e.at e.value h.1.holds (ground (arith, h.1.gap)) p.done
                  ∙ r,
              y,
              a ∙ ap (log_due es) p.acted,
              f ∙ ap (log_due es) p.freed,
              m ∙ p.tail,
            )
      ]
