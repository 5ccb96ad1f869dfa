-- ===== src/DeltaList/Listing.antt =====
-- A delta list of common/deltalist.c as a list of timed items, and what its operations make of it.
use psnet.Prelude.{
  ℕ, suc, ◌<◌, ◌^◌, ◌≡◌, refl, ◌∙◌, sym, ap, if◌then◌else◌, arith, true, false, some, List, [], ◌∷◌,
  map, length,
}
use psnet.DeltaList.{Ops, DeltaList, Rc, new, delta_tick}
use psnet.DeltaList.Operations.{delta_update, delta_remove, delta_size}
use psnet.DeltaList.Queue.{Entry}
use psnet.DeltaList.Hash.{IsKey}
use psnet.DeltaList.Settled.{IsSettled, updated-IsSettled, removed-IsSettled, ticked-IsSettled}
use psnet.DeltaList.Interval.{delta_tick-interval, delta_update-interval, delta_remove-interval}
use psnet.DeltaList.Spec.{refresh, erase, is_newest, tick}
use psnet.DeltaList.Update.{delta_update-refresh}
use psnet.DeltaList.Refine.{delta_remove-erase}
use psnet.DeltaList.Tick.{delta_tick_lem}
use psnet.DeltaList.Every.{Every-IsLive, Every-IsSelfEqual}
use psnet.DeltaList.Whole.{new-Represents, delta_size-length}
use psnet.DeltaList.Timed.{
  item, without, renew, elapse, has, is_latest, items-erase, items-refresh, items-tick, member-has,
  is_newest-is_latest,
}

pub length-map : {A B : Type 0} (f : A → B) (xs : List A) → length (map f xs) ≡ length xs
length-map f [] = refl
length-map f (x ∷ xs) = ap suc (length-map f xs)

module _ {D : Type 0} (ops : Ops D) where
  -- The table stands for the items, and gives `n` ticks to a new one.
  pub record IsListing (n : ℕ) (t : DeltaList D) (ps : List (D × ℕ)) : Type 0 where
    pub entries : List (Entry D)
    pub settled : IsSettled ops t entries
    pub view : map item entries ≡ ps
    pub interval : t.interval ≡ n

  pub new-IsListing : (r n : ℕ) → 0 < n → n < 2 ^ 32 → IsListing n (new r n) []
  new-IsListing r n p w = record {
    entries = [];
    settled = record {
      table = new-Represents ops r n p w;
      tail = tt;
      live = λ e i. absurd i;
      self = λ e i. absurd i;
    };
    view = refl;
    interval = refl;
  }

  module _ (n : ℕ) (t : DeltaList D) (ps : List (D × ℕ)) (h : IsListing n t ps) where
    length-entries : length h.entries ≡ length ps
    length-entries = sym (length-map item h.entries) ∙ ap length h.view

    pub delta_size-listed : delta_size t ≡ length ps
    delta_size-listed = delta_size-length ops t h.entries h.settled.table ∙ length-entries

    not_newest : (d : D) → is_latest ops d ps ≡ false → is_newest ops d h.entries ≡ false
    not_newest d old = is_newest-is_latest ops d h.entries ∙ ap (is_latest ops d) h.view ∙ old

    module _ (key : IsKey ops) where
      pub delta_update-listed :
          ((a b : D) → ops.equals a b ≡ true → a ≡ b)
          → (d : D) → ops.equals d d ≡ true
          → suc (length ps) < 2 ^ 32
          → is_latest ops d ps ≡ false
          → (t' : DeltaList D) × (delta_update ops t d ≡ some ((if has ops d ps then 1 else 0), t'))
            × IsListing n t' (renew ops d n ps)
      delta_update-listed same d self room old =
          let es = h.entries in
          let fits : suc (length es) < 2 ^ 32 = omega (arith, length-entries) in
          let (t', run, _, _) =
            delta_update-refresh ops key t es d h.settled.table h.settled.tail fits
              (not_newest d old) in
          (
            t',
            run
                ∙ ap (λ b. some ((if b then 1 else 0), t'))
                    (member-has ops d es ∙ ap (has ops d) h.view),
            record {
              entries = refresh ops d t.brk t.interval es;
              settled =
                  updated-IsSettled ops key t t' es d _ h.settled self fits (not_newest d old) run;
              view =
                  items-refresh ops same d t.brk t.interval es
                  ∙ ap (λ k. renew ops d k (map item es)) h.interval
                  ∙ ap (renew ops d n) h.view;
              interval = delta_update-interval ops t d _ run ∙ h.interval;
            },
          )

      pub delta_remove-listed :
          (d : D)
          → is_latest ops d ps ≡ false
          → (rc : Rc) × (t' : DeltaList D) × (delta_remove ops t d ≡ some (rc, t'))
            × IsListing n t' (without ops d ps)
      delta_remove-listed d old =
          let es = h.entries in
          let (t', (run, _, _, _, _)) = delta_remove-erase ops key t es d h.settled.table in
          (
            _,
            t',
            run,
            record {
              entries = erase ops d es;
              settled = removed-IsSettled ops key t t' es d _ h.settled (not_newest d old) run;
              view = items-erase ops d es ∙ ap (without ops d) h.view;
              interval = delta_remove-interval ops t d _ run ∙ h.interval;
            },
          )

      pub delta_tick-listed :
          (t' : DeltaList D) × (delta_tick ops t ≡ some t') × IsListing n t' (elapse ps)
      delta_tick-listed =
          let es = h.entries in
          let s = h.settled in
          let (t', run, _, _, _, _, _) =
            delta_tick_lem ops key t es s.table s.tail (Every-IsLive es s.live)
              (Every-IsSelfEqual ops es s.self) in
          (
            t',
            run,
            record {
              entries = tick es;
              settled = ticked-IsSettled ops key t t' es s run;
              view = items-tick es ∙ ap elapse h.view;
              interval = delta_tick-interval ops t t' run ∙ h.interval;
            },
          )
