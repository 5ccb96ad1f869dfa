-- ===== src/DeltaList/Every.antt =====
-- What holds of every entry of a delta list, and stays so.
use psnet.Prelude.{
  ℕ, ◌<◌, ◌≡◌, refl, sym, subst, inl, inr, true, Bool-cases, arith, Option, none, some, List, [],
  ◌∷◌, ◌++◌, map, In, In-append, ◌==◌,
}
use psnet.DeltaList.{Ops, DeltaList}
use psnet.DeltaList.Queue.{Entry, Links}
use psnet.DeltaList.Append.{entry}
use psnet.DeltaList.Spec.{
  IsSelfEqual, member, find_entry, erase, with_entry, refresh, refresh_by, IsLive, age, drop_due,
  tick,
}

module _ {D : Type 0} where
  abbrev pub Every : (Entry D → Type 0) → List (Entry D) → Type 0
  Every p es = (e : Entry D) → In e es → p e

  Every-cons :
      (p : Entry D → Type 0) (x : Entry D) (es : List (Entry D))
      → p x
      → Every p es
      → Every p (x ∷ es)
  Every-cons p x es h all e (inl s) = subst p (sym s) h
  Every-cons p x es h all e (inr i) = all e i

  Every-append :
      (p : Entry D → Type 0) (es : List (Entry D)) (x : Entry D)
      → Every p es
      → p x
      → Every p (es ++ x ∷ [])
  Every-append p es x all h e i = elim (In-append e es (x ∷ []) i) [
    | inl j ↦ all e j
    | inr (inl s) ↦ subst p (sym s) h
    | inr (inr j) ↦ absurd j
  ]

  Every-drop_due : (p : Entry D → Type 0) (es : List (Entry D)) → Every p es → Every p (drop_due es)
  Every-drop_due p [] all = all
  Every-drop_due p (e ∷ es) all = elim (Bool-cases (e.left == 0)) [
    | inl y ↦ rw y (Every-drop_due p es (λ f i. all f (inr i)))
    | inr n ↦ rw n all
  ]

  Every-age :
      (p q : Entry D → Type 0) (es : List (Entry D))
      → ((e : Entry D) → p e → q (age e))
      → Every p es
      → Every q (map age es)
  Every-age p q [] step all e i = absurd i
  Every-age p q (x ∷ es) step all e (inl s) = subst q (sym s) (step x (all x (inl refl)))
  Every-age p q (x ∷ es) step all e (inr i) = Every-age p q es step (λ f j. all f (inr j)) e i

  pub Every-tick :
      (p q : Entry D → Type 0) (es : List (Entry D))
      → ((e : Entry D) → p e → q (age e))
      → Every p es
      → Every q (tick es)
  Every-tick p q es step all = Every-drop_due q (map age es) (Every-age p q es step all)

  -- The ticks do not fall along the list.
  Links-Every :
      (t : DeltaList D) (q : Option ℕ) (acc : ℕ) (a : Option ℕ) (es : List (Entry D))
      → 0 < acc
      → Links t q acc a es
      → Every (λ e. 0 < e.left) es
  Links-Every t q acc a [] h l e i = absurd i
  Links-Every t q acc a (x ∷ es) h l e (inl s) =
      subst (λ f. 0 < f.left) (sym s) (omega (arith, h, l.1.gap))
  Links-Every t q acc a (x ∷ es) h l e (inr i) =
      Links-Every t (some x.at) x.left (t.dl_next x.at) es (omega (arith, h, l.1.gap)) l.2 e i

  pub IsLive-Every :
      (t : DeltaList D) (a : Option ℕ) (es : List (Entry D))
      → IsLive es
      → Links t none 0 a es
      → Every (λ e. 0 < e.left) es
  IsLive-Every t a [] h l e i = absurd i
  IsLive-Every t a (x ∷ es) h l e (inl s) = subst (λ f. 0 < f.left) (sym s) h
  IsLive-Every t a (x ∷ es) h l e (inr i) =
      Links-Every t (some x.at) x.left (t.dl_next x.at) es h l.2 e i

  pub Every-IsLive : (es : List (Entry D)) → Every (λ e. 0 < e.left) es → IsLive es
  Every-IsLive [] all = tt
  Every-IsLive (e ∷ es) all = all e (inl refl)

  module _ (ops : Ops D) where
    pub Every-IsSelfEqual :
        (es : List (Entry D))
        → Every (λ e. ops.equals e.value e.value ≡ true) es
        → IsSelfEqual ops es
    Every-IsSelfEqual [] all = tt
    Every-IsSelfEqual (e ∷ es) all = (all e (inl refl), Every-IsSelfEqual es (λ f i. all f (inr i)))

    module _ (d : D) (p : Entry D → Type 0) where
      pub Every-erase : (es : List (Entry D)) → Every p es → Every p (erase ops d es)
      Every-erase [] all = all
      Every-erase (x ∷ es) all = elim (Bool-cases (ops.equals x.value d)) [
        | inl y ↦ rw y (λ e i. all e (inr i))
        | inr n ↦ rw n (
            Every-cons p x (erase ops d es) (all x (inl refl))
              (Every-erase es (λ e i. all e (inr i))))
      ]

      pub Every-with_entry :
          (es : List (Entry D)) (a n : ℕ)
          → Every p es
          → p (entry a d n)
          → Every p (with_entry ops d a n es)
      Every-with_entry es a n all h = elim (Bool-cases (member ops d es)) [
        | inl y ↦ rw y all
        | inr m ↦ rw m (Every-append p es (entry a d n) all h)
      ]

      -- The entry that is found is one of them.
      Found : (es : List (Entry D)) → Option (Entry D) → Type 0
      Found es none = Unit
      Found es (some e) = In e es

      found_lem : (es : List (Entry D)) → Found es (find_entry ops d es)
      unfolding Found
      found_lem [] = tt
      found_lem (x ∷ es) = elim (Bool-cases (ops.equals x.value d)) [
        | inl y ↦ rw y (inl refl)
        | inr n ↦ rw n (later (find_entry ops d es) (found_lem es))
      ]
        where
          later : (o : Option (Entry D)) → Found es o → Found (x ∷ es) o
          later none h = tt
          later (some e) h = inr h

      pub Every-refresh :
          (es : List (Entry D)) (a n : ℕ)
          → Every p es
          → p (entry a d n)
          → ((e : Entry D) → p e → p (record e { left = n }))
          → Every p (refresh ops d a n es)
      unfolding Found
      Every-refresh es a n all h step = by_entry (find_entry ops d es) (found_lem es)
        where
          by_entry : (o : Option (Entry D)) → Found es o → Every p (refresh_by ops d o a n es)
          by_entry none k = Every-append p es (entry a d n) all h
          by_entry (some e) k =
              Every-append p (erase ops d es) (record e { left = n }) (Every-erase es all)
                (step e (all e k))
