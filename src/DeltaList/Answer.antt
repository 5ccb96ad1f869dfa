-- ===== src/DeltaList/Answer.antt =====
-- What `delta_update` of common/deltalist.c returns: whether there was an entry.
use psnet.Prelude.{
  ℕ, suc, ◌^◌, ◌<◌, ◌≡◌, refl, ◌∙◌, sym, ap, subst, inl, inr, true, false, Option, some, List, [],
  ◌∷◌, ◌++◌, Bool-cases, length, length-append, arith, none, if◌then◌else◌,
}
use psnet.DeltaList.{Ops, DeltaList}
use psnet.DeltaList.Operations.{delta_update}
use psnet.DeltaList.Queue.{Entry, last_at}
use psnet.DeltaList.Append.{IsTail, entry}
use psnet.DeltaList.Hash.{IsKey}
use psnet.DeltaList.Delete.{Represents}
use psnet.DeltaList.Spec.{member, ends, is_newest, find_entry, refresh_by}
use psnet.DeltaList.Update.{delta_update-refresh}
use psnet.DeltaList.Stale.{delta_update-newest}

module _ {D : Type 0} (ops : Ops D) (d : D) where
  -- The last entry, which is the one for the data.
  record Last (es : List (Entry D)) : Type 0 where
    others : List (Entry D)
    entry : Entry D
    parts : es ≡ others ++ entry ∷ []
    match : ops.equals entry.value d ≡ true
    last : (p : Option ℕ) → last_at p es ≡ some entry.at

  ends-Last : (es : List (Entry D)) → ends ops d es ≡ true → Last es
  ends-Last [] h = cc
  ends-Last (e ∷ []) h = record {
    others = [];
    entry = e;
    parts = refl;
    match = h;
    last = λ p. refl;
  }
  ends-Last (e ∷ f ∷ es) h =
      let w = ends-Last (f ∷ es) h in
      record {
        others = e ∷ w.others;
        entry = w.entry;
        parts = ap (λ l. e ∷ l) w.parts;
        match = w.match;
        last = λ p. w.last (some e.at);
      }

  member-append :
      (l : List (Entry D)) (e : Entry D)
      → ops.equals e.value d ≡ true
      → member ops d (l ++ e ∷ []) ≡ true
  member-append [] e m = rw m refl
  member-append (x ∷ l) e m = elim (Bool-cases (ops.equals x.value d)) [
    | inl y ↦ rw y refl
    | inr n ↦ rw n (member-append l e m)
  ]

  -- `delta_update` does not fault and returns 1 if there is an entry for the data and 0 if there is
  -- none, on a table in good order with room for one more.
  pub delta_update-member :
      (key : IsKey ops) (t : DeltaList D) (es : List (Entry D))
      → Represents ops t es
      → IsTail t es
      → suc (length es) < 2 ^ 32
      → (t' : DeltaList D) × (delta_update ops t d ≡ some ((if member ops d es then 1 else 0), t'))
  delta_update-member key t [] x tail room =
      let (t', e, _, _) = delta_update-refresh ops key t [] d x tail room refl in (t', e)
  delta_update-member key t (f ∷ es) x tail room = elim (Bool-cases (ends ops d es)) [
    | inr old ↦
        let (t', e, _, _) = delta_update-refresh ops key t (f ∷ es) d x tail room old in (t', e)
    | inl new ↦
        let w = ends-Last es new in
        let (t', e, _, _, _, _, _) =
          delta_update-newest ops key t (f ∷ es) d x f w.others w.entry (ap (λ l. f ∷ l) w.parts)
            (tail ∙ w.last (some f.at)) w.match in
        let there =
          ap (member ops d) (ap (λ l. f ∷ l) w.parts)
          ∙ member-append (f ∷ w.others) w.entry w.match in
        (t', rw there e)
  ]

  find_entry-absent : (es : List (Entry D)) → member ops d es ≡ false → find_entry ops d es ≡ none
  find_entry-absent [] m = refl
  find_entry-absent (e ∷ es) m = elim (Bool-cases (ops.equals e.value d)) [
    | inl y ↦ absurd (let f : true ≡ false = rw y at m in cc)
    | inr n ↦ rw n (find_entry-absent es (rw n at m))
  ]

  is_newest-absent : (es : List (Entry D)) → member ops d es ≡ false → is_newest ops d es ≡ false
  is_newest-absent [] m = refl
  is_newest-absent (f ∷ es) m = elim (Bool-cases (ends ops d es)) [
    | inr old ↦ old
    | inl new ↦
        let w = ends-Last es new in
        let there =
          ap (member ops d) (ap (λ l. f ∷ l) w.parts)
          ∙ member-append (f ∷ w.others) w.entry w.match in
        absurd (let b : false ≡ true = sym m ∙ there in cc)
  ]

  -- A second `delta_update` for new data that are equal to themselves finds what the first put.
  pub delta_update-twice :
      (key : IsKey ops) (t : DeltaList D) (es : List (Entry D))
      → Represents ops t es
      → IsTail t es
      → suc (suc (length es)) < 2 ^ 32
      → member ops d es ≡ false
      → ops.equals d d ≡ true
      → (t₁ : DeltaList D) × (t₂ : DeltaList D) × (delta_update ops t d ≡ some (0, t₁))
        × (delta_update ops t₁ d ≡ some (1, t₂))
  delta_update-twice key t es x tail room absent self =
      let old = is_newest-absent es absent in
      let after = es ++ entry t.brk d t.interval ∷ [] in
      let same = ap (λ f. refresh_by ops d f t.brk t.interval es) (find_entry-absent es absent) in
      let (t₁, e, y, m) = delta_update-refresh ops key t es d x tail (omega arith) old in
      let longer = length-append es (entry t.brk d t.interval ∷ []) in
      let (t₂, g) =
        delta_update-member key t₁ after (subst (Represents ops t₁) same y)
          (subst (IsTail t₁) same m) (omega (arith, longer)) in
      let first : delta_update ops t d ≡ some (0, t₁) = rw absent at e in
      let there = member-append es (entry t.brk d t.interval) self in
      let second : delta_update ops t₁ d ≡ some (1, t₂) = rw there at g in (t₁, t₂, first, second)
