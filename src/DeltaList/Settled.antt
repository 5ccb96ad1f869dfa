-- ===== src/DeltaList/Settled.antt =====
-- A delta list of common/deltalist.c in good order, and that each call leaves it so.
use psnet.Prelude.{
  ℕ, suc, ◌<◌, ◌^◌, ◌≡◌, ◌∙◌, sym, ap, subst, true, false, Option, some, List, [], length,
}
use psnet.DeltaList.{Ops, DeltaList, Rc, delta_tick}
use psnet.DeltaList.Operations.{delta_insert, delta_update, delta_remove, delta_clear}
use psnet.DeltaList.Queue.{Entry}
use psnet.DeltaList.Append.{IsTail}
use psnet.DeltaList.Hash.{IsKey}
use psnet.DeltaList.Delete.{Represents}
use psnet.DeltaList.Refine.{delta_insert-with_entry, delta_remove-erase}
use psnet.DeltaList.Refresh.{erase-IsTail}
use psnet.DeltaList.Update.{delta_update-refresh}
use psnet.DeltaList.Tick.{delta_tick_lem}
use psnet.DeltaList.Whole.{delta_clear_lem}
use psnet.DeltaList.Spec.{with_entry, refresh, erase, is_newest, tick}
use psnet.DeltaList.Every.{
  Every, Every-with_entry, Every-refresh, Every-erase, Every-tick, IsLive-Every, Every-IsLive,
  Every-IsSelfEqual,
}

module _ {D : Type 0} (ops : Ops D) where
  -- The table stands for the entries, its tail pointer is right, each entry has a tick left, and its
  -- data is equal to itself.
  pub record IsSettled (t : DeltaList D) (es : List (Entry D)) : Type 0 where
    pub table : Represents ops t es
    pub tail : IsTail t es
    pub live : Every (λ e. 0 < e.left) es
    pub self : Every (λ e. ops.equals e.value e.value ≡ true) es

  some_of : {A : Type 0} (o : Option A) (x y : A) → o ≡ some x → o ≡ some y → x ≡ y
  some_of o x y h k = let e : some x ≡ some y = sym h ∙ k in cc

  module _ (key : IsKey ops) where
    pub inserted-IsSettled :
        (t t' : DeltaList D) (es : List (Entry D)) (d : D)
        → IsSettled t es
        → ops.equals d d ≡ true
        → suc (length es) < 2 ^ 32
        → delta_insert ops t d ≡ some t'
        → IsSettled t' (with_entry ops d t.brk t.interval es)
    inserted-IsSettled t t' es d s same room run =
        let (u, r, x, tail) = delta_insert-with_entry ops key t es d s.table s.tail room in
        subst (λ v. IsSettled v (with_entry ops d t.brk t.interval es)) (some_of _ u t' r run)
          (record {
            table = x;
            tail = tail;
            live =
                Every-with_entry ops d (λ e. 0 < e.left) es t.brk t.interval s.live
                  s.table.is_table.queue.ticks;
            self =
                Every-with_entry ops d (λ e. ops.equals e.value e.value ≡ true) es t.brk t.interval
                  s.self same;
          })

    pub updated-IsSettled :
        (t t' : DeltaList D) (es : List (Entry D)) (d : D) (rc : ℕ)
        → IsSettled t es
        → ops.equals d d ≡ true
        → suc (length es) < 2 ^ 32
        → is_newest ops d es ≡ false
        → delta_update ops t d ≡ some (rc, t')
        → IsSettled t' (refresh ops d t.brk t.interval es)
    updated-IsSettled t t' es d rc s same room old run =
        let (u, r, x, tail) = delta_update-refresh ops key t es d s.table s.tail room old in
        subst (λ v. IsSettled v (refresh ops d t.brk t.interval es))
          (ap (λ q. q.1) (some_of _ _ (rc, t') r run))
          (record {
            table = x;
            tail = tail;
            live =
                Every-refresh ops d (λ e. 0 < e.left) es t.brk t.interval s.live
                  s.table.is_table.queue.ticks (λ e h. s.table.is_table.queue.ticks);
            self =
                Every-refresh ops d (λ e. ops.equals e.value e.value ≡ true) es t.brk t.interval
                  s.self same (λ e h. h);
          })

    pub removed-IsSettled :
        (t t' : DeltaList D) (es : List (Entry D)) (d : D) (rc : Rc)
        → IsSettled t es
        → is_newest ops d es ≡ false
        → delta_remove ops t d ≡ some (rc, t')
        → IsSettled t' (erase ops d es)
    removed-IsSettled t t' es d rc s old run =
        let (u, (r, x, _, _, same)) = delta_remove-erase ops key t es d s.table in
        subst (λ v. IsSettled v (erase ops d es)) (ap (λ q. q.1) (some_of _ _ (rc, t') r run))
          (record {
            table = x;
            tail = erase-IsTail ops t u d es same old s.tail;
            live = Every-erase ops d (λ e. 0 < e.left) es s.live;
            self = Every-erase ops d (λ e. ops.equals e.value e.value ≡ true) es s.self;
          })

    pub ticked-IsSettled :
        (t t' : DeltaList D) (es : List (Entry D))
        → IsSettled t es
        → delta_tick ops t ≡ some t'
        → IsSettled t' (tick es)
    ticked-IsSettled t t' es s run =
        let (u, r, x, tail, live, _, _) =
          delta_tick_lem ops key t es s.table s.tail (Every-IsLive es s.live)
            (Every-IsSelfEqual ops es s.self) in
        subst (λ v. IsSettled v (tick es)) (some_of _ u t' r run)
          (record {
            table = x;
            tail = tail;
            live = IsLive-Every u u.delta_head (tick es) live x.is_table.queue.links;
            self =
                Every-tick (λ e. ops.equals e.value e.value ≡ true)
                  (λ e. ops.equals e.value e.value ≡ true) es (λ e h. h) s.self;
          })

    pub cleared-IsSettled :
        (t t' : DeltaList D) (es : List (Entry D))
        → IsSettled t es
        → delta_clear t ≡ some t'
        → IsSettled t' []
    cleared-IsSettled t t' es s run =
        let (u, r, x, _, _) = delta_clear_lem ops t es s.table in
        subst (λ v. IsSettled v []) (some_of _ u t' r run)
          (record { table = x; tail = tt; live = λ e i. absurd i; self = λ e i. absurd i })
