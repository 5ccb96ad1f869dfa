-- ===== src/DeltaList/Spec.antt =====
-- What a delta list promises: a sequence of entries, in the order in which they expire.
use psnet.Prelude.{
  ℕ, ◌-◌, ◌<◌, ◌≡◌, refl, Bool, true, false, Option, none, some, List, [], ◌∷◌, ◌++◌, map, ◌==◌,
  if◌then◌else◌, In, inl, inr, ap,
}
use psnet.DeltaList.{Ops}
use psnet.DeltaList.Queue.{Entry}

-- The data of every entry are equal to themselves, so `delta_tick` finds what it wants to delete.
abbrev pub IsSelfEqual : {D : Type 0} → Ops D → List (Entry D) → Type 0
IsSelfEqual ops [] = Unit
IsSelfEqual ops (e ∷ es) = (ops.equals e.value e.value ≡ true) × IsSelfEqual ops es

module _ {D : Type 0} (ops : Ops D) (d : D) where
  abbrev pub member : List (Entry D) → Bool
  member [] = false
  member (e ∷ es) = if ops.equals e.value d then true else member es

  abbrev pub find : List (Entry D) → Option D
  find [] = none
  find (e ∷ es) = if ops.equals e.value d then some e.value else find es

  abbrev pub erase : List (Entry D) → List (Entry D)
  erase [] = []
  erase (e ∷ es) = if ops.equals e.value d then es else e ∷ erase es

  abbrev pub find_entry : List (Entry D) → Option (Entry D)
  find_entry [] = none
  find_entry (e ∷ es) = if ops.equals e.value d then some e else find_entry es

  -- The last entry of at least two is the one for `d`.
  abbrev pub ends : List (Entry D) → Bool
  ends [] = false
  ends (e ∷ []) = ops.equals e.value d
  ends (e ∷ f ∷ es) = ends (f ∷ es)

  abbrev pub is_newest : List (Entry D) → Bool
  is_newest [] = false
  is_newest (e ∷ es) = ends es

  -- A new entry at the address `a`, with `n` ticks, unless there is one for `d`.
  abbrev pub with_entry : ℕ → ℕ → List (Entry D) → List (Entry D)
  with_entry a n es = if member es then es else es ++ record { at = a; value = d; left = n } ∷ []

  abbrev pub refresh_by : Option (Entry D) → ℕ → ℕ → List (Entry D) → List (Entry D)
  refresh_by none a n es = es ++ record { at = a; value = d; left = n } ∷ []
  refresh_by (some e) a n es = erase es ++ record e { left = n } ∷ []

  -- The entry for `d` goes to the end and gets `n` ticks again; if there is none, a new one does.
  abbrev pub refresh : ℕ → ℕ → List (Entry D) → List (Entry D)
  refresh a n es = refresh_by (find_entry es) a n es

  pub ends-append : (l : List (Entry D)) (e : Entry D) → ends (l ++ e ∷ []) ≡ ops.equals e.value d
  ends-append [] e = refl
  ends-append (x ∷ []) e = refl
  ends-append (x ∷ y ∷ l) e = ends-append (y ∷ l) e

  pub absent_lem :
      (es : List (Entry D))
      → ((e : Entry D) → In e es → ops.equals e.value d ≡ false)
      → (member es ≡ false) × (find es ≡ none) × (erase es ≡ es) × (find_entry es ≡ none)
  absent_lem [] h = (refl, refl, refl, refl)
  absent_lem (e ∷ es) h =
      let (m, f, r, g) = absent_lem es (λ x i. h x (inr i)) in
      rw (h e (inl refl)) (m, f, ap (λ xs. e ∷ xs) r, g)

  pub present_lem :
      (l : List (Entry D)) (e : Entry D) (r : List (Entry D))
      → ((x : Entry D) → In x l → ops.equals x.value d ≡ false)
      → ops.equals e.value d ≡ true
      → (member (l ++ e ∷ r) ≡ true)
        × (find (l ++ e ∷ r) ≡ some e.value)
        × (erase (l ++ e ∷ r) ≡ l ++ r)
        × (find_entry (l ++ e ∷ r) ≡ some e)
  present_lem [] e r h s = rw s (refl, refl, refl, refl)
  present_lem (x ∷ l) e r h s =
      let (m, f, q, g) = present_lem l e r (λ y i. h y (inr i)) s in
      rw (h x (inl refl)) (m, f, ap (λ xs. x ∷ xs) q, g)

module _ {D : Type 0} where
  -- No entry has expired: the first, and so each, has a tick left.
  abbrev pub IsLive : List (Entry D) → Type 0
  IsLive [] = Unit
  IsLive (e ∷ es) = 0 < e.left

  -- One tick: every entry has one tick less, and those with none left go, oldest first.
  abbrev pub age : Entry D → Entry D
  age e = record e { left = e.left - 1 }

  abbrev pub drop_due : List (Entry D) → List (Entry D)
  drop_due [] = []
  drop_due (e ∷ es) = if e.left == 0 then drop_due es else e ∷ es

  -- The data that expire, the last to expire first, as the log of `act` has them.
  abbrev pub log_due : List (Entry D) → List D → List D
  log_due [] log = log
  log_due (e ∷ es) log = if e.left == 0 then log_due es (e.value ∷ log) else log

  abbrev pub tick : List (Entry D) → List (Entry D)
  tick es = drop_due (map age es)

-- The log of `free` after the data of an entry, if there was one, has been freed.
abbrev pub freed_by {ℓ} : {A : Type ℓ} → Option A → List A → List A
freed_by none log = log
freed_by (some x) log = x ∷ log
