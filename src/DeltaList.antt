-- ===== src/DeltaList.antt =====
-- common/deltalist.c and include/deltalist.h: a hash table of nodes that are also threaded on a
-- delta list, the queue of the nodes in order of expiry.
--
-- Memory is explicit: an address is a number, NULL is `none`, and each field of `struct
-- delta_node` is a map from addresses. An address at which `node_data` is `none` holds no node,
-- and a dereference of it is a fault (`none` of the whole operation). `brk` counts the addresses
-- that malloc has handed out; malloc does not fail and does not hand an address out twice.
-- The calls of `act` and `free` are recorded. The mutex serialises the operations, so each is one
-- step from state to state.
pub mod Operations
pub mod Bucket
pub mod Queue
pub mod Unlink
pub mod Order
pub mod Append
pub mod Hash
pub mod Detach
pub mod Unhash
pub mod Spec
pub mod Delete
pub mod Insert
pub mod Grow
pub mod Refine
pub mod Refresh
pub mod Update
pub mod Stale
pub mod Answer
pub mod Age
pub mod Expire
pub mod Tick
pub mod Whole
pub mod Every
pub mod Settled
pub mod History
pub mod Clock
pub mod Interval
pub mod Timed
pub mod Listing
pub mod Stays
pub mod Lease
use psnet.Prelude.{
  ℕ, zero, suc, ◌%◌, Bool, true, false, Option, none, some, List, [], ◌∷◌, ◌==◌, if◌then◌else◌,
  ◌>>=◌, update, add32, sub32,
}

abbrev pub ht_size : ℕ
ht_size = 10

-- The functions that operate on data_t.
pub record Ops (D : Type 0) : Type 0 where
  pub hash : D → ℕ
  pub equals : D → D → Bool

pub record DeltaList (D : Type 0) : Type 0 where
  pub resolution : ℕ
  pub interval : ℕ
  pub size : ℕ
  pub delta : ℕ
  pub delta_head : Option ℕ
  pub delta_tail : Option ℕ
  pub table : ℕ → Option ℕ
  pub node_data : ℕ → Option D
  pub node_delta : ℕ → ℕ
  pub ht_next : ℕ → Option ℕ
  pub dl_next : ℕ → Option ℕ
  pub dl_prev : ℕ → Option ℕ
  pub brk : ℕ
  pub acted : List D
  pub freed : List D

-- What `delta_delete` returns: 0 or -1.
pub data Rc : Type 0 where
  success : Rc
  failure : Rc

module _ {D : Type 0} where
  -- A statically initialised table: `size`, `delta`, the pointers and the buckets are zero.
  abbrev pub new : (resolution interval : ℕ) → DeltaList D
  new r n = record {
    resolution = r;
    interval = n;
    size = 0;
    delta = 0;
    delta_head = none;
    delta_tail = none;
    table = λ _. none;
    node_data = λ _. none;
    node_delta = λ _. 0;
    ht_next = λ _. none;
    dl_next = λ _. none;
    dl_prev = λ _. none;
    brk = 0;
    acted = [];
    freed = [];
  }

  -- `node = malloc(sizeof(struct delta_node)); node->data = data;`
  unfoldable pub alloc : DeltaList D → D → ℕ × DeltaList D
  alloc t d = (t.brk, record t { node_data = update t.node_data t.brk (some d); brk = suc t.brk })

  unfoldable pub dl_insert_node : DeltaList D → ℕ → Option (DeltaList D)
  dl_insert_node t node = do
    _ ← t.node_data node
    t' ← elim t.delta_head [
      | none ↦ some (record t {
        node_delta = update t.node_delta node t.interval;
        delta_head = some node;
        delta_tail = some node;
        dl_prev = update t.dl_prev node none;
      })
      | some _ ↦ do
        last ← t.delta_tail
        _ ← t.node_data last
        some (record t {
          node_delta = update t.node_delta node (sub32 t.interval t.delta);
          dl_next = update t.dl_next last (some node);
          dl_prev = update t.dl_prev node (some last);
          delta_tail = some node;
        })
    ]
    some (record t' { dl_next = update t'.dl_next node none; delta = t'.interval })

  -- The two halves of `dl_remove_node`: the neighbour behind, and the neighbour before.
  unfoldable pub unlink_next : DeltaList D → ℕ → Option ℕ → Option (DeltaList D)
  unlink_next t node (some next) = do
    _ ← t.node_data next
    some (record t {
      node_delta = update t.node_delta next (add32 (t.node_delta next) (t.node_delta node));
      dl_prev = update t.dl_prev next (t.dl_prev node);
    })
  unlink_next t node none = some (record t { delta = sub32 t.delta (t.node_delta node) })

  unfoldable pub unlink_prev : DeltaList D → ℕ → Option ℕ → Option (DeltaList D)
  unlink_prev t node (some prev) = do
    _ ← t.node_data prev
    some (record t { dl_next = update t.dl_next prev (t.dl_next node) })
  unlink_prev t node none = some (record t { delta_head = t.dl_next node })

  unfoldable pub dl_remove_node : DeltaList D → ℕ → Option (DeltaList D)
  dl_remove_node t node = do
    _ ← t.node_data node
    t' ← unlink_next t node (t.dl_next node)
    unlink_prev t' node (t'.dl_prev node)

module _ {D : Type 0} (ops : Ops D) where
  -- The walk along a bucket; the result is the pair of `it` and `last`.
  unfoldable pub scan : ℕ → DeltaList D → D → (it last : Option ℕ) → Option (Option ℕ × Option ℕ)
  scan fuel t d none last = some (none, last)
  scan zero t d (some it) last = none
  scan (suc fuel) t d (some it) last =
      let rest = scan fuel t d (t.ht_next it) (some it) in
      t.node_data it >>= λ x. if ops.equals x d then some (some it, last) else rest

  unfoldable pub get_node : DeltaList D → D → Option (Option ℕ × Option ℕ)
  get_node t d = scan t.brk t d (t.table (ops.hash d % ht_size)) none

  unfoldable pub hash_insert : DeltaList D → ℕ → Option (DeltaList D)
  hash_insert t node = do
    d ← t.node_data node
    let index = ops.hash d % ht_size
    some (record t {
      ht_next = update t.ht_next node (t.table index);
      table = update t.table index (some node);
    })

  -- The bucket's half of `delta_delete`.
  unfoldable pub ht_unlink : DeltaList D → D → ℕ → Option ℕ → Option (DeltaList D)
  ht_unlink t d node none = t.node_data node >>= λ _.
      some (record t { table = update t.table (ops.hash d % ht_size) (t.ht_next node) })
  ht_unlink t d node (some prev) = do
    _ ← t.node_data node
    _ ← t.node_data prev
    some (record t { ht_next = update t.ht_next prev (t.ht_next node) })

  -- `table->size--` and the two calls of free.
  unfoldable pub release : DeltaList D → ℕ → Option (DeltaList D)
  release t node = do
    x ← t.node_data node
    some (record t {
      size = sub32 t.size 1;
      freed = x ∷ t.freed;
      node_data = update t.node_data node none;
    })

  unfoldable pub delta_delete : DeltaList D → D → Option (Rc × DeltaList D)
  delta_delete t d = do
    (found, prev) ← get_node t d
    elim found [
      | none ↦ some (failure, t)
      | some node ↦ do
        t₁ ← ht_unlink t d node prev
        t₂ ← dl_remove_node t₁ node
        t₃ ← release t₂ node
        some (success, t₃)
    ]

  -- One turn of the while loop of `delta_tick`; `again` is the rest of the loop.
  unfoldable pub expire_step :
      DeltaList D → (DeltaList D → Option (DeltaList D)) → Option ℕ → Option (DeltaList D)
  expire_step t again none = some t
  expire_step t again (some head) = do
    x ← t.node_data head
    if t.node_delta head == 0
        then (delta_delete (record t { acted = x ∷ t.acted }) x >>= λ r. again r.1)
        else some t

  -- The while loop of `delta_tick`.
  unfoldable pub expire : ℕ → DeltaList D → Option (DeltaList D)
  expire zero t = none
  expire (suc fuel) t = expire_step t (λ t'. expire fuel t') t.delta_head

  unfoldable pub delta_tick : DeltaList D → Option (DeltaList D)
  delta_tick t = elim t.delta_head [
    | none ↦ some t
    | some head ↦ do
      _ ← t.node_data head
      expire (suc t.size) (record t {
        delta = sub32 t.delta 1;
        node_delta = update t.node_delta head (sub32 (t.node_delta head) 1);
      })
  ]
