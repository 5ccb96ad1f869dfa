-- ===== src/DeltaList/Tick.antt =====
-- `delta_tick` of common/deltalist.c: entries whose ticks have run out are reported and deleted.
use psnet.Prelude.{
  ℕ, suc, ◌≡◌, refl, ◌∙◌, inl, inr, none, some, List, ◌∷◌, [], map, arith, Bool-cases, ◌==◌,
}
use psnet.DeltaList.{Ops, DeltaList, expire, delta_tick}
use psnet.DeltaList.Queue.{Entry, last_at}
use psnet.DeltaList.Append.{IsTail}
use psnet.DeltaList.Hash.{IsKey}
use psnet.DeltaList.Delete.{Represents}
use psnet.DeltaList.Age.{ticked, ticked-Represents, ticked-IsTail}
use psnet.DeltaList.Spec.{IsLive, IsSelfEqual, age, drop_due, log_due, tick}
use psnet.DeltaList.Expire.{expire_lem}

module _ {D : Type 0} (ops : Ops D) where
  drop_due-IsLive : (es : List (Entry D)) → IsLive (drop_due es)
  drop_due-IsLive [] = tt
  drop_due-IsLive (e ∷ es) = elim (Bool-cases (e.left == 0)) [
    | inl gone ↦ rw gone (drop_due-IsLive es)
    | inr keep ↦ rw keep (ground arith)
  ]

  drop_due-IsTail :
      (t t' : DeltaList D) (es : List (Entry D))
      → t'.delta_tail ≡ t.delta_tail
      → IsTail t es
      → IsTail t' (drop_due es)
  drop_due-IsTail t t' [] s h = tt
  drop_due-IsTail t t' (e ∷ es) s h = elim (Bool-cases (e.left == 0)) [
    | inl gone ↦ rw gone (drop_due-IsTail t t' es s (shorter es h))
    | inr keep ↦ rw keep (s ∙ h)
  ]
    where
      shorter : (es : List (Entry D)) → t.delta_tail ≡ last_at (some e.at) es → IsTail t es
      shorter [] k = tt
      shorter (f ∷ fs) k = k

  delta_tick-null : (t : DeltaList D) → t.delta_head ≡ none → delta_tick ops t ≡ some t
  unfolding delta_tick
  delta_tick-null t h = rw h

  delta_tick-ticked :
      (t : DeltaList D) (head : ℕ) (v : D)
      → t.delta_head ≡ some head
      → t.node_data head ≡ some v
      → delta_tick ops t ≡ expire ops (suc t.size) (ticked t head)
  unfolding delta_tick
  delta_tick-ticked t head v h d = rw (h, d)

  -- What a tick makes of the table: the entries age, those without ticks are reported to `act`
  -- and freed, oldest first, and the rest stay, in order, none of them expired.
  abbrev pub Ticked : DeltaList D → List (Entry D) → Type 0
  Ticked t es =
      (t' : DeltaList D) × (delta_tick ops t ≡ some t')
      × Represents ops t' (tick es)
      × IsTail t' (tick es)
      × IsLive (tick es)
      × (t'.acted ≡ log_due (map age es) t.acted)
      × (t'.freed ≡ log_due (map age es) t.freed)

  age-IsSelfEqual : (es : List (Entry D)) → IsSelfEqual ops es → IsSelfEqual ops (map age es)
  age-IsSelfEqual [] self = tt
  age-IsSelfEqual (e ∷ es) self = (self.0, age-IsSelfEqual es self.1)

  -- `delta_tick` ends without a fault, whatever the number of entries that expire together, on a
  -- table in good order whose data are equal to themselves.
  pub delta_tick_lem :
      (key : IsKey ops) (t : DeltaList D) (es : List (Entry D))
      → Represents ops t es
      → IsTail t es
      → IsLive es
      → IsSelfEqual ops es
      → Ticked t es
  delta_tick_lem key t [] x tail live self =
      (t, delta_tick-null t x.is_table.queue.links, x, tt, tt, refl, refl)
  delta_tick_lem key t (e ∷ es) x tail live self =
      let h = x.is_table.queue.links in
      let y = ticked-Represents ops t e es live x in
      let z =
        expire_lem ops key (suc t.size) (ticked t e.at) (map age (e ∷ es))
          (omega (arith, y.is_table.size)) (age-IsSelfEqual (e ∷ es) self) y in
      (
        z.0,
        delta_tick-ticked t e.at e.value h.0 h.1.holds ∙ z.1,
        z.2,
        drop_due-IsTail (ticked t e.at) z.0 (map age (e ∷ es)) z.5 (ticked-IsTail t e es tail),
        drop_due-IsLive (map age (e ∷ es)),
        z.3,
        z.4,
      )
