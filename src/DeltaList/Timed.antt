-- ===== src/DeltaList/Timed.antt =====
-- The entries of a delta list without their addresses: items with the ticks that are left to them, in
-- the order in which they expire. What the operations of common/deltalist.c make of them.
use psnet.Prelude.{
  ℕ, ◌-◌, ◌≡◌, refl, ◌∙◌, sym, ap, ap₂, inl, inr, Bool, true, false, Bool-cases, Option, none, some,
  List, [], ◌∷◌, ◌++◌, map, ◌==◌, if◌then◌else◌,
}
use psnet.DeltaList.{Ops}
use psnet.DeltaList.Queue.{Entry}
use psnet.DeltaList.Spec.{
  member, erase, ends, is_newest, find_entry, refresh, refresh_by, age, drop_due, tick,
}

module _ {D : Type 0} where
  -- A tick passes; an item with none left goes.
  abbrev pub older : D × ℕ → D × ℕ
  older p = (p.0, p.1 - 1)

  abbrev pub drop_expired : List (D × ℕ) → List (D × ℕ)
  drop_expired [] = []
  drop_expired (p ∷ ps) = if p.1 == 0 then drop_expired ps else p ∷ ps

  abbrev pub elapse : List (D × ℕ) → List (D × ℕ)
  elapse ps = drop_expired (map older ps)

  -- The item that an entry stands for.
  abbrev pub item : Entry D → D × ℕ
  item e = (e.value, e.left)

  items-append :
      (es : List (Entry D)) (e : Entry D) → map item (es ++ e ∷ []) ≡ map item es ++ item e ∷ []
  items-append [] e = refl
  items-append (x ∷ es) e = ap (λ ps. item x ∷ ps) (items-append es e)

  items-drop_due :
      (es : List (Entry D))
      → map item (drop_due (map age es)) ≡ drop_expired (map older (map item es))
  items-drop_due [] = refl
  items-drop_due (e ∷ es) = elim (Bool-cases (e.left - 1 == 0)) [
    | inl y ↦ rw y (items-drop_due es)
    | inr n ↦ rw n (ap (λ ps. (e.value, e.left - 1) ∷ ps) (items-age es))
  ]
    where
      items-age : (fs : List (Entry D)) → map item (map age fs) ≡ map older (map item fs)
      items-age [] = refl
      items-age (f ∷ fs) = ap (λ ps. older (item f) ∷ ps) (items-age fs)

  pub items-tick : (es : List (Entry D)) → map item (tick es) ≡ elapse (map item es)
  items-tick es = items-drop_due es

module _ {D : Type 0} (ops : Ops D) where
  -- The item `c`, if it is there, goes.
  abbrev pub without : D → List (D × ℕ) → List (D × ℕ)
  without c [] = []
  without c (p ∷ ps) = if ops.equals p.0 c then ps else p ∷ without c ps

  -- The item `c` is there with `n` ticks, behind the others.
  abbrev pub renew : D → ℕ → List (D × ℕ) → List (D × ℕ)
  renew c n ps = without c ps ++ (c, n) ∷ []

  abbrev pub has : D → List (D × ℕ) → Bool
  has c [] = false
  has c (p ∷ ps) = if ops.equals p.0 c then true else has c ps

  pub member-has : (c : D) (es : List (Entry D)) → member ops c es ≡ has c (map item es)
  member-has c [] = refl
  member-has c (e ∷ es) = ap (λ b. if ops.equals e.value c then true else b) (member-has c es)

  -- The item `c` is the last of at least two.
  abbrev last_is : D → List (D × ℕ) → Bool
  last_is c [] = false
  last_is c (p ∷ []) = ops.equals p.0 c
  last_is c (p ∷ q ∷ ps) = last_is c (q ∷ ps)

  abbrev pub is_latest : D → List (D × ℕ) → Bool
  is_latest c [] = false
  is_latest c (p ∷ ps) = last_is c ps

  pub items-erase :
      (c : D) (es : List (Entry D)) → map item (erase ops c es) ≡ without c (map item es)
  items-erase c [] = refl
  items-erase c (e ∷ es) = elim (Bool-cases (ops.equals e.value c)) [
    | inl y ↦ rw y refl
    | inr n ↦ rw n (ap (λ ps. item e ∷ ps) (items-erase c es))
  ]

  find_entry-none :
      (c : D) (es : List (Entry D))
      → find_entry ops c es ≡ none
      → without c (map item es) ≡ map item es
  find_entry-none c [] h = refl
  find_entry-none c (e ∷ es) h = elim (Bool-cases (ops.equals e.value c)) [
    | inl y ↦ absurd (let f : some e ≡ none = rw y at h in cc)
    | inr n ↦ rw n (ap (λ ps. item e ∷ ps) (find_entry-none c es (rw n at h)))
  ]

  pub is_newest-is_latest :
      (c : D) (es : List (Entry D)) → is_newest ops c es ≡ is_latest c (map item es)
  is_newest-is_latest c [] = refl
  is_newest-is_latest c (e ∷ es) = go es
    where
      go : (fs : List (Entry D)) → ends ops c fs ≡ last_is c (map item fs)
      go [] = refl
      go (f ∷ []) = refl
      go (f ∷ g ∷ fs) = go (g ∷ fs)

  module _ (same : (a b : D) → ops.equals a b ≡ true → a ≡ b) where
    abbrev value_of : D → Option (Entry D) → D
    value_of c none = c
    value_of c (some e) = e.value

    find_entry-value :
        (c : D) (es : List (Entry D)) (e : Entry D) → find_entry ops c es ≡ some e → e.value ≡ c
    find_entry-value c [] e h = cc
    find_entry-value c (x ∷ es) e h = elim (Bool-cases (ops.equals x.value c)) [
      | inl y ↦
          let f : some x ≡ some e = rw y at h in ap (λ o. value_of c o) (sym f) ∙ same x.value c y
      | inr n ↦ find_entry-value c es e (rw n at h)
    ]

    items-refresh_by :
        (c : D) (a n : ℕ) (es : List (Entry D)) (o : Option (Entry D))
        → find_entry ops c es ≡ o
        → map item (refresh_by ops c o a n es) ≡ renew c n (map item es)
    items-refresh_by c a n es none h =
        items-append es _ ∙ ap (λ ps. ps ++ (c, n) ∷ []) (sym (find_entry-none c es h))
    items-refresh_by c a n es (some e) h =
        items-append (erase ops c es) _
        ∙ ap₂ (λ ps v. ps ++ (v, n) ∷ []) (items-erase c es) (find_entry-value c es e h)

    pub items-refresh :
        (c : D) (a n : ℕ) (es : List (Entry D))
        → map item (refresh ops c a n es) ≡ renew c n (map item es)
    items-refresh c a n es = items-refresh_by c a n es (find_entry ops c es) refl
