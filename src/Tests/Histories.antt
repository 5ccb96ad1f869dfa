-- ===== src/Tests/Histories.antt =====
-- A delta list over numbers, and what has been done with it.
use psnet.Prelude.{ℕ, ◌≡◌, refl, some, List, [], ◌∷◌, arith, ◌==◌, add32, sub32}
use psnet.DeltaList.{Ops, DeltaList, new, alloc, get_node, scan, hash_insert, dl_insert_node}
use psnet.DeltaList.Operations.{delta_insert}
use psnet.DeltaList.Queue.{Entry}
use psnet.DeltaList.Hash.{IsKey}
use psnet.DeltaList.Append.{entry}
use psnet.DeltaList.Grow.{appended}
use psnet.DeltaList.History.{
  History, begun, called, inserts, updates, call, promised, History-IsSettled, History-proceeds,
}
use psnet.DeltaList.Operations.{delta_size}
use psnet.DeltaList.Clock.{clock_thread, clock_thread-empty}
use psnet.DeltaList.Settled.{IsSettled}

abbrev numbers : Ops ℕ
numbers = record { hash = λ a. a; equals = λ a b. a == b }

numbers-IsKey : IsKey numbers
numbers-IsKey = record {
  equals_symm = ground arith;
  equals_trans = ground arith;
  hash-equals = ground arith;
}

abbrev start : DeltaList ℕ
start = new 1 10

abbrev one : DeltaList ℕ
one = appended numbers start 7 []

abbrev two : DeltaList ℕ
two = appended numbers one 17 (entry 0 7 10 ∷ [])

abbrev entries : List (Entry ℕ)
entries = entry 0 7 10 ∷ entry 1 17 10 ∷ []

first_runs : delta_insert numbers start 7 ≡ some one
unfolding delta_insert alloc get_node scan hash_insert dl_insert_node add32 sub32
first_runs = refl

second_runs : delta_insert numbers one 17 ≡ some two
unfolding delta_insert alloc get_node scan hash_insert dl_insert_node add32 sub32
second_runs = refl

two-History : History numbers 1 10 two entries
two-History =
    called {t = one} {t' = two} {es = entry 0 7 10 ∷ []} (inserts 17)
      (called {t = start} {t' = one} {es = []} (inserts 7) begun (refl, omega arith) first_runs)
      (refl, omega arith) second_runs

-- The older of the two is updated next.
History-proceeds_example :
    IsSettled numbers two entries
    × (t' : DeltaList ℕ) × (call numbers two (updates 7) ≡ some t')
    × IsSettled numbers t' (promised numbers two entries (updates 7))
    × History numbers 1 10 t' (promised numbers two entries (updates 7))
History-proceeds_example =
    History-proceeds numbers numbers-IsKey 1 10 (omega arith) (omega arith) two entries (updates 7)
      two-History (refl, omega arith, refl)

two-IsSettled : IsSettled numbers two entries
two-IsSettled =
    History-IsSettled numbers numbers-IsKey 1 10 (omega arith) (omega arith) two entries two-History

clock_thread-empty_example :
    (t' : DeltaList ℕ) × (clock_thread numbers 10 two ≡ some t') × (delta_size t' ≡ 0)
clock_thread-empty_example = clock_thread-empty numbers numbers-IsKey two entries two-IsSettled
