-- ===== src/Tests/Table.antt =====
-- Delta lists over numbers: runs of common/deltalist.c, and its theorems at small tables.
use psnet.Prelude.{
  ℕ, ◌≡◌, refl, inl, inr, true, false, Option, none, some, List, [], ◌∷◌, arith, ◌==◌, ◌>>=◌, In,
  add32, sub32,
}
use psnet.DeltaList.{
  Ops, DeltaList, new, delta_tick, alloc, get_node, scan, hash_insert, dl_insert_node,
  dl_remove_node, unlink_next, unlink_prev, delta_delete, ht_unlink, release, expire, expire_step,
}
use psnet.DeltaList.Operations.{
  delta_insert, delta_update, delta_remove, delta_contains, delta_get, delta_foreach, delta_clear,
  delta_size, update_node,
}
use psnet.DeltaList.Queue.{Entry, Links}
use psnet.DeltaList.Hash.{IsKey}
use psnet.DeltaList.Append.{IsTail, entry}
use psnet.DeltaList.Delete.{Represents}
use psnet.DeltaList.Grow.{appended, appended-Represents, appended-IsTail}
use psnet.DeltaList.Update.{delta_update-refresh}
use psnet.DeltaList.Stale.{delta_update-newest}
use psnet.DeltaList.Tick.{Ticked, delta_tick_lem}
use psnet.DeltaList.Whole.{new-Represents}

-- Numbers, with many of them in one bucket.
abbrev numbers : Ops ℕ
numbers = record { hash = λ a. a; equals = λ a b. a == b }

numbers-IsKey : IsKey numbers
numbers-IsKey = record {
  equals_symm = ground arith;
  equals_trans = ground arith;
  hash-equals = ground arith;
}

program : Unit {0}
unfolding delta_insert delta_update delta_remove delta_contains delta_get delta_tick delta_foreach
    delta_clear delta_size alloc get_node scan hash_insert dl_insert_node dl_remove_node unlink_next
    unlink_prev delta_delete ht_unlink release expire expire_step update_node add32 sub32
program = tt

-- The data on the delta list, the last first.
abbrev contents : DeltaList ℕ → Option (List ℕ)
contents t = delta_foreach t (λ d arg. (d ∷ arg, false)) []

-- 7 and 17 share a bucket. 7 is renewed one tick after it came, and so outlives 17.
session : Option (List ℕ × List ℕ × ℕ × ℕ)
session = do
  t ← delta_insert numbers (new 1 3) 7
  t ← delta_insert numbers t 17
  t ← delta_tick numbers t
  (rc, t) ← delta_update numbers t 7
  t ← delta_insert numbers t 17
  t ← delta_tick numbers t
  t ← delta_tick numbers t
  left ← contents t
  some (left, t.acted, rc, t.size)

session_runs : session ≡ some (7 ∷ [], 17 ∷ [], 1, 1)
unfolding program session
session_runs = refl

-- The newest of two entries is renewed, and a third comes: only the first is reached any more.
newest_lost : Option (List ℕ × ℕ)
newest_lost = do
  t ← delta_insert numbers (new 1 3) 1
  t ← delta_insert numbers t 2
  (_, t) ← delta_update numbers t 2
  t ← delta_insert numbers t 3
  left ← contents t
  some (left, t.size)

newest_lost_runs : newest_lost ≡ some (1 ∷ [], 3)
unfolding program newest_lost
newest_lost_runs = refl

-- The newest of two entries is removed; the next insertion goes through a pointer to a freed node.
dangling : Option (DeltaList ℕ)
dangling = do
  t ← delta_insert numbers (new 1 3) 1
  t ← delta_insert numbers t 2
  (_, t) ← delta_remove numbers t 2
  delta_insert numbers t 3

dangling_faults : dangling ≡ none
unfolding program dangling
dangling_faults = refl

abbrev start : DeltaList ℕ
start = new 1 10

start_Represents : Represents numbers start []
start_Represents = new-Represents numbers 1 10 (omega arith) (omega arith)

abbrev one : DeltaList ℕ
one = appended numbers start 7 []

abbrev one_entries : List (Entry ℕ)
one_entries = entry 0 7 10 ∷ []

one_Represents : Represents numbers one one_entries
one_Represents =
    appended-Represents numbers numbers-IsKey start [] start_Represents tt (omega arith) 7
      (λ e i. absurd i)

one-IsTail : IsTail one one_entries
one-IsTail =
    appended-IsTail numbers numbers-IsKey start [] start_Represents tt (omega arith) 7
      (λ e i. absurd i)

one_absent : (e : Entry ℕ) → In e one_entries → (e.value == 17) ≡ false
one_absent e (inl s) = rw s refl
one_absent e (inr i) = absurd i

abbrev two : DeltaList ℕ
two = appended numbers one 17 one_entries

abbrev two_entries : List (Entry ℕ)
two_entries = entry 0 7 10 ∷ entry 1 17 10 ∷ []

two_Represents : Represents numbers two two_entries
two_Represents =
    appended-Represents numbers numbers-IsKey one one_entries one_Represents one-IsTail
      (omega arith) 17 one_absent

two-IsTail : IsTail two two_entries
two-IsTail =
    appended-IsTail numbers numbers-IsKey one one_entries one_Represents one-IsTail (omega arith) 17
      one_absent

delta_tick_lem_example : Ticked numbers two two_entries
delta_tick_lem_example =
    delta_tick_lem numbers numbers-IsKey two two_entries two_Represents two-IsTail (omega arith)
      (refl, (refl, tt))

delta_update-refresh_example :
    (t' : DeltaList ℕ) × (delta_update numbers two 7 ≡ some (1, t'))
    × Represents numbers t' (entry 1 17 10 ∷ entry 0 7 10 ∷ [])
    × IsTail t' (entry 1 17 10 ∷ entry 0 7 10 ∷ [])
delta_update-refresh_example =
    delta_update-refresh numbers numbers-IsKey two two_entries 7 two_Represents two-IsTail
      (omega arith) refl

delta_update-newest_example :
    (t' : DeltaList ℕ) × (delta_update numbers two 17 ≡ some (1, t'))
    × Links t' none 0 t'.delta_head (entry 0 7 10 ∷ [])
    × (t'.size ≡ 2)
    × (delta_contains numbers t' 17 ≡ some true)
    × (t'.delta_tail ≡ some 1)
    × (t'.dl_prev 1 ≡ some 1)
delta_update-newest_example =
    delta_update-newest numbers numbers-IsKey two two_entries 17 two_Represents (entry 0 7 10) []
      (entry 1 17 10) refl refl refl
