-- ===== src/DeltaList/History.antt =====
-- A delta list of common/deltalist.c from its initialisation on, over any sequence of calls.
use psnet.Prelude.{
  ℕ, suc, ◌<◌, ◌^◌, ◌≡◌, refl, true, false, Option, some, List, [], length, ◌>>=◌, subst, sym, ◌∙◌,
}
use psnet.DeltaList.{Ops, DeltaList, new, delta_tick}
use psnet.DeltaList.Operations.{delta_insert, delta_update, delta_remove, delta_clear}
use psnet.DeltaList.Queue.{Entry}
use psnet.DeltaList.Hash.{IsKey}
use psnet.DeltaList.Whole.{new-Represents, delta_clear_lem}
use psnet.DeltaList.Refine.{delta_insert-with_entry, delta_remove-erase}
use psnet.DeltaList.Update.{delta_update-refresh}
use psnet.DeltaList.Tick.{delta_tick_lem}
use psnet.DeltaList.Every.{Every-IsLive, Every-IsSelfEqual}
use psnet.DeltaList.Spec.{with_entry, refresh, erase, is_newest, tick}
use psnet.DeltaList.Settled.{
  IsSettled, inserted-IsSettled, updated-IsSettled, removed-IsSettled, ticked-IsSettled,
  cleared-IsSettled,
}

-- A call that changes a table.
pub data Call (D : Type 0) : Type 0 where
  inserts updates removes : D → Call D
  ticks clears : Call D

module _ {D : Type 0} (ops : Ops D) where
  abbrev pub call : DeltaList D → Call D → Option (DeltaList D)
  call t (inserts d) = delta_insert ops t d
  call t (updates d) = delta_update ops t d >>= λ r. some r.1
  call t (removes d) = delta_remove ops t d >>= λ r. some r.1
  call t ticks = delta_tick ops t
  call t clears = delta_clear t

  -- The entries that a call promises.
  abbrev pub promised : DeltaList D → List (Entry D) → Call D → List (Entry D)
  promised t es (inserts d) = with_entry ops d t.brk t.interval es
  promised t es (updates d) = refresh ops d t.brk t.interval es
  promised t es (removes d) = erase ops d es
  promised t es ticks = tick es
  promised t es clears = []

  -- Data that is put in is equal to itself and finds room; an entry that is the newest of several is
  -- neither updated nor removed.
  abbrev pub Suits : List (Entry D) → Call D → Type 0
  Suits es (inserts d) = (ops.equals d d ≡ true) × (suc (length es) < 2 ^ 32)
  Suits es (updates d) =
      (ops.equals d d ≡ true) × (suc (length es) < 2 ^ 32) × (is_newest ops d es ≡ false)
  Suits es (removes d) = is_newest ops d es ≡ false
  Suits es ticks = Unit
  Suits es clears = Unit

  -- The states that come about, with the sequence of entries that each call promises.
  pub data History (resolution interval : ℕ) : DeltaList D → List (Entry D) → Type 0 where
    begun : History resolution interval (new resolution interval) []
    called :
        {t t' : DeltaList D} {es : List (Entry D)} (c : Call D)
        → History resolution interval t es
        → Suits es c
        → call t c ≡ some t'
        → History resolution interval t' (promised t es c)

  module _ (key : IsKey ops) where
    -- A call on a table in good order does not fault, and leaves one in good order.
    call-IsSettled :
        (t : DeltaList D) (es : List (Entry D)) (c : Call D)
        → IsSettled ops t es
        → Suits es c
        → (t' : DeltaList D) × (call t c ≡ some t') × IsSettled ops t' (promised t es c)
    call-IsSettled t es (inserts d) s (same, room) =
        let (t', run, _, _) = delta_insert-with_entry ops key t es d s.table s.tail room in
        (t', run, inserted-IsSettled ops key t t' es d s same room run)
    call-IsSettled t es (updates d) s (same, room, old) =
        let (t', run, _, _) = delta_update-refresh ops key t es d s.table s.tail room old in
        (t', rw run refl, updated-IsSettled ops key t t' es d _ s same room old run)
    call-IsSettled t es (removes d) s old =
        let (t', (run, _, _, _, _)) = delta_remove-erase ops key t es d s.table in
        (t', rw run refl, removed-IsSettled ops key t t' es d _ s old run)
    call-IsSettled t es ticks s h =
        let (t', run, _, _, _, _, _) =
          delta_tick_lem ops key t es s.table s.tail (Every-IsLive es s.live)
            (Every-IsSelfEqual ops es s.self) in
        (t', run, ticked-IsSettled ops key t t' es s run)
    call-IsSettled t es clears s h =
        let (t', run, _, _, _) = delta_clear_lem ops t es s.table in
        (t', run, cleared-IsSettled ops key t t' es s run)

    module _ (resolution interval : ℕ) (positive : 0 < interval) (bound : interval < 2 ^ 32) where
      pub History-IsSettled :
          (t : DeltaList D) (es : List (Entry D))
          → History resolution interval t es
          → IsSettled ops t es
      History-IsSettled t es begun = record {
        table = new-Represents ops resolution interval positive bound;
        tail = tt;
        live = λ e i. absurd i;
        self = λ e i. absurd i;
      }
      History-IsSettled t es (called {t = t₀} {es = es₀} c h suits run) =
          let (t', done, s) = call-IsSettled t₀ es₀ c (History-IsSettled t₀ es₀ h) suits in
          let same : some t' ≡ some t = sym done ∙ run in
          let e : t' ≡ t = cc in subst (λ u. IsSettled ops u es) e s

      -- Whatever calls a table has had, it stands for the sequence of entries that the calls
      -- promise, its tail pointer is right, and no entry has expired; and whichever call comes next
      -- does not fault, and leaves the table so for what it promises. No call is to update or remove
      -- the newest of several entries, and data that is put in is equal to itself and finds room.
      pub History-proceeds :
          (t : DeltaList D) (es : List (Entry D)) (c : Call D)
          → History resolution interval t es
          → Suits es c
          → IsSettled ops t es
            × (t' : DeltaList D) × (call t c ≡ some t')
            × IsSettled ops t' (promised t es c)
            × History resolution interval t' (promised t es c)
      History-proceeds t es c h suits =
          let s = History-IsSettled t es h in
          let (t', run, s') = call-IsSettled t es c s suits in
          (s, t', run, s', called c h suits run)
