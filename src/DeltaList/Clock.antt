-- ===== src/DeltaList/Clock.antt =====
-- The clock of a delta list (clock_thread of common/deltalist.c), and how long an entry stays.
use psnet.Prelude.{
  ℕ, zero, suc, ◌+◌, ◌<◌, ◌≤◌, ◌^◌, ◌≡◌, refl, ◌∙◌, sym, ap, subst, inl, inr, true, false,
  Bool-cases, arith, Option, none, some, List, [], ◌∷◌, map, In, In-append_right, ◌>>=◌, ◌==◌,
  length,
}
use psnet.DeltaList.{Ops, DeltaList, delta_tick}
use psnet.DeltaList.Operations.{delta_update, delta_contains, delta_size}
use psnet.DeltaList.Queue.{Entry, Links}
use psnet.DeltaList.Hash.{IsKey}
use psnet.DeltaList.Refine.{delta_contains-member}
use psnet.DeltaList.Update.{delta_update-refresh}
use psnet.DeltaList.Tick.{delta_tick_lem}
use psnet.DeltaList.Whole.{delta_size-length}
use psnet.DeltaList.Spec.{
  member, find_entry, refresh, refresh_by, erase, is_newest, age, drop_due, tick,
}
use psnet.DeltaList.Every.{Every, Every-tick, Every-IsLive, Every-IsSelfEqual}
use psnet.DeltaList.Settled.{IsSettled, ticked-IsSettled, updated-IsSettled}

-- So many turns of the loop of `clock_thread`, each behind `resolution` seconds of sleep.
unfoldable pub clock_thread :
    {D : Type 0} → Ops D → (turns : ℕ) → DeltaList D → Option (DeltaList D)
clock_thread ops zero t = some t
clock_thread ops (suc turns) t = delta_tick ops t >>= clock_thread ops turns

module _ {D : Type 0} where
  -- The entries when so many turns have passed.
  abbrev pub after : ℕ → List (Entry D) → List (Entry D)
  after zero es = es
  after (suc k) es = after k (tick es)

  In-drop_due : (es : List (Entry D)) (e : Entry D) → In e es → 0 < e.left → In e (drop_due es)
  In-drop_due [] e i h = i
  In-drop_due (x ∷ es) e (inl s) h =
      let l : e.left ≡ x.left = ap (λ f. f.left) s in
      let n : (x.left == 0) ≡ false = ground arith in rw n (inl s)
  In-drop_due (x ∷ es) e (inr i) h = elim (Bool-cases (x.left == 0)) [
    | inl y ↦ rw y (In-drop_due es e i h)
    | inr n ↦ rw n (inr i)
  ]

  In-age : (es : List (Entry D)) (e : Entry D) → In e es → In (age e) (map age es)
  In-age [] e i = i
  In-age (x ∷ es) e (inl s) = inl (ap age s)
  In-age (x ∷ es) e (inr i) = inr (In-age es e i)

  -- An entry stays while it has ticks left.
  In-after :
      (k : ℕ) (es : List (Entry D)) (e : Entry D)
      → In e es
      → k < e.left
      → (f : Entry D) × In f (after k es) × (f.value ≡ e.value)
  In-after zero es e i h = (e, i, refl)
  In-after (suc k) es e i h =
      In-after k (tick es) (age e) (In-drop_due (map age es) (age e) (In-age es e i) (omega arith))
        (omega arith)

  Links-within :
      (t : DeltaList D) (q : Option ℕ) (acc : ℕ) (a : Option ℕ) (es : List (Entry D))
      → Links t q acc a es
      → Every (λ e. e.left ≤ t.interval) es
  Links-within t q acc a [] l e i = absurd i
  Links-within t q acc a (x ∷ es) l e (inl s) = subst (λ f. f.left ≤ t.interval) (sym s) l.1.within
  Links-within t q acc a (x ∷ es) l e (inr i) =
      Links-within t (some x.at) x.left (t.dl_next x.at) es l.2 e i

  -- None of the entries has more ticks.
  Every-after :
      (k n : ℕ) (es : List (Entry D))
      → Every (λ e. e.left ≤ k + n) es
      → Every (λ e. e.left ≤ n) (after k es)
  Every-after zero n es h e i = omega (arith, h e i)
  Every-after (suc k) n es h e i =
      Every-after k n (tick es)
        (Every-tick (λ e. e.left ≤ suc k + n) (λ e. e.left ≤ k + n) es (λ f b. omega (arith, b)) h)
        e i

  none_left :
      (es : List (Entry D)) → Every (λ e. e.left ≤ 0) es → Every (λ e. 0 < e.left) es → es ≡ []
  none_left [] h k = refl
  none_left (x ∷ es) h k = absurd (omega (arith, h x (inl refl), k x (inl refl)))

  module _ (ops : Ops D) (d : D) where
    member-In :
        (es : List (Entry D)) (e : Entry D)
        → In e es
        → ops.equals e.value d ≡ true
        → member ops d es ≡ true
    member-In [] e i h = absurd i
    member-In (x ∷ es) e (inl s) h =
        let k : ops.equals x.value d ≡ true = ap (λ f. ops.equals f.value d) (sym s) ∙ h in
        rw k refl
    member-In (x ∷ es) e (inr i) h = elim (Bool-cases (ops.equals x.value d)) [
      | inl y ↦ rw y refl
      | inr n ↦ rw n (member-In es e i h)
    ]

    -- The entry that is renewed is there, with the full interval.
    Renewed : ℕ → List (Entry D) → Type 0
    Renewed n es = (e : Entry D) × In e es × (e.left ≡ n) × (ops.equals e.value d ≡ true)

    Equal : Option (Entry D) → Type 0
    Equal none = Unit
    Equal (some e) = ops.equals e.value d ≡ true

    find_entry-Equal : (es : List (Entry D)) → Equal (find_entry ops d es)
    unfolding Equal
    find_entry-Equal [] = tt
    find_entry-Equal (x ∷ es) = elim (Bool-cases (ops.equals x.value d)) [
      | inl y ↦ rw y y
      | inr n ↦ rw n (find_entry-Equal es)
    ]

    refresh-Renewed :
        (es : List (Entry D)) (a n : ℕ) → ops.equals d d ≡ true → Renewed n (refresh ops d a n es)
    unfolding Renewed Equal
    refresh-Renewed es a n same = by_entry (find_entry ops d es) (find_entry-Equal es)
      where
        by_entry : (o : Option (Entry D)) → Equal o → Renewed n (refresh_by ops d o a n es)
        by_entry none h = (
          record { at = a; value = d; left = n },
          In-append_right _ es (record { at = a; value = d; left = n } ∷ []) (inl refl),
          refl,
          same,
        )
        by_entry (some e) h = (
          record e { left = n },
          In-append_right _ (erase ops d es) (record e { left = n } ∷ []) (inl refl),
          refl,
          h,
        )

  module _ (ops : Ops D) (key : IsKey ops) where
    -- The clock does not fault on a table in good order.
    pub clock_thread-after :
        (k : ℕ) (t : DeltaList D) (es : List (Entry D))
        → IsSettled ops t es
        → (t' : DeltaList D) × (clock_thread ops k t ≡ some t') × IsSettled ops t' (after k es)
    unfolding clock_thread
    clock_thread-after zero t es s = (t, refl, s)
    clock_thread-after (suc k) t es s =
        let (u, r, _, _, _, _, _) =
          delta_tick_lem ops key t es s.table s.tail (Every-IsLive es s.live)
            (Every-IsSelfEqual ops es s.self) in
        let (t', q, x) = clock_thread-after k u (tick es) (ticked-IsSettled ops key t u es s r) in
        (t', rw r q, x)

    -- Data that has just been renewed by `delta_update` stays in the table for any number of turns of
    -- the clock below the interval.
    pub delta_update-stays :
        (t : DeltaList D) (es : List (Entry D)) (d : D) (k : ℕ)
        → IsSettled ops t es
        → ops.equals d d ≡ true
        → suc (length es) < 2 ^ 32
        → is_newest ops d es ≡ false
        → k < t.interval
        → (rc : ℕ) × (t₁ : DeltaList D) × (delta_update ops t d ≡ some (rc, t₁))
          × (t₂ : DeltaList D) × (clock_thread ops k t₁ ≡ some t₂)
          × (delta_contains ops t₂ d ≡ some true)
    unfolding Renewed
    delta_update-stays t es d k s same room old h =
        let (t₁, r, _, _) = delta_update-refresh ops key t es d s.table s.tail room old in
        let new = refresh ops d t.brk t.interval es in
        let settled = updated-IsSettled ops key t t₁ es d _ s same room old r in
        let (t₂, q, x) = clock_thread-after k t₁ new settled in
        let (e, i, l, eq) = refresh-Renewed ops d es t.brk t.interval same in
        let (f, j, v) = In-after k new e i (omega (arith, l)) in
        (
          _,
          t₁,
          r,
          t₂,
          q,
          delta_contains-member ops key t₂ (after k new) d x.table
              ∙ ap some (member-In ops d (after k new) f j (ap (λ y. ops.equals y d) v ∙ eq)),
        )

    -- A table that is left alone for as many turns of the clock as its interval is empty.
    pub clock_thread-empty :
        (t : DeltaList D) (es : List (Entry D))
        → IsSettled ops t es
        → (t' : DeltaList D) × (clock_thread ops t.interval t ≡ some t') × (delta_size t' ≡ 0)
    clock_thread-empty t es s =
        let (t', r, x) = clock_thread-after t.interval t es s in
        let w = Links-within t none 0 t.delta_head es s.table.is_table.queue.links in
        let gone =
          none_left (after t.interval es)
            (Every-after t.interval 0 es (λ e i. omega (arith, w e i))) x.live in
        (t', r, delta_size-length ops t' (after t.interval es) x.table ∙ ap length gone)
