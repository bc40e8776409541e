-- ===== src/MemStore/Shared/Refined.antt =====
-- `AppendOp` of CRDT/MemoryStore.go on clocks at addresses implements `AppendOp` on clocks as values.
use mathlib.Core.List.{map, map-append}
use gossip_pubsub.Base.{
  length, ℕ, ◌+◌, ◌-◌, ◌≤◌, ◌≡◌, refl, sym, ap, ◌∙◌, Option, none, some, List, [], ◌∷◌, ◌++◌, ltb,
  inl, inr, Bool-cases, arith,
}
use gossip_pubsub.Clock.{VectorClock}
use gossip_pubsub.GoMap.{GoMap}
use gossip_pubsub.OpHeap
use gossip_pubsub.OpHeap.{Op, OpHeap, Eviction, approx_size, evict}
use gossip_pubsub.MemStore.{append_op, StoreError, apply_op, log_op}
use gossip_pubsub.MemStore.Shared.{
  Memory, SharedOp, SharedCrdt, SharedStore, op_value, objects_value, store_value, log_shared,
  SharedEviction, share_op, evict_shared, append_shared,
}
use gossip_pubsub.MemStore.Shared.Views.{
  ObjectsBelow, ClockBelow, OpsBelow, Extends, ops_same, read_same,
}
use gossip_pubsub.MemStore.Shared.Switched.{Switched, share_op-Switched}

-- All addresses in the store are in use.
pub record StoreBelow (s : SharedStore) : Type 0 where
  pub objects : ObjectsBelow s.memory.next s.objects
  pub ops : OpsBelow s.memory.next s.ops

OpsBelow-snoc :
    (n : ℕ) (l : List SharedOp) (o : SharedOp)
    → OpsBelow n l
    → ClockBelow n o.ts
    → OpsBelow n (l ++ o ∷ [])
OpsBelow-snoc n [] o h b = (b, tt)
OpsBelow-snoc n (a ∷ l) o h b = (h.0, OpsBelow-snoc n l o h.1 b)

ClockBelow-mono : (n n' : ℕ) (ts : Option ℕ) → n ≤ n' → ClockBelow n ts → ClockBelow n' ts
ClockBelow-mono n n' none le h = tt
ClockBelow-mono n n' (some a) le h = omega arith

OpsBelow-mono : (n n' : ℕ) (l : List SharedOp) → n ≤ n' → OpsBelow n l → OpsBelow n' l
OpsBelow-mono n n' [] le h = tt
OpsBelow-mono n n' (o ∷ l) le h = (ClockBelow-mono n n' o.ts le h.0, OpsBelow-mono n n' l le h.1)

eviction_value : (ℕ → VectorClock) → SharedEviction → Eviction
eviction_value cells r = record {
  ops = map (op_value cells) r.ops;
  bytes = r.bytes;
  evicted = map (op_value cells) r.evicted;
}

-- Evicting operations with shared clocks, and evicting their values.
evict-map :
    (cells : ℕ → VectorClock) (cap : ℕ) (l : List SharedOp) (bytes : ℕ) (done : List SharedOp)
    → evict cap (map (op_value cells) l) bytes (map (op_value cells) done)
      ≡ eviction_value cells (evict_shared cells cap l bytes done)
unfolding evict_shared evict eviction_value
evict-map cells cap [] bytes done = refl
evict-map cells cap (o ∷ l) bytes done = elim (Bool-cases (ltb cap bytes)) [
  | inl over ↦
      rw (over, sym (map-append (op_value cells) done (o ∷ [])))
        (evict-map cells cap l (bytes - approx_size (op_value cells o)) (done ++ o ∷ []))
  | inr fits ↦ rw fits refl
]

evict_shared-OpsBelow :
    (n : ℕ) (cells : ℕ → VectorClock) (cap : ℕ) (l : List SharedOp) (bytes : ℕ)
    (done : List SharedOp)
    → OpsBelow n l
    → OpsBelow n (evict_shared cells cap l bytes done).ops
unfolding evict_shared
evict_shared-OpsBelow n cells cap [] bytes done h = tt
evict_shared-OpsBelow n cells cap (o ∷ l) bytes done h = elim (Bool-cases (ltb cap bytes)) [
  | inl over ↦ rw over (
      evict_shared-OpsBelow n cells cap l (bytes - approx_size (op_value cells o)) (done ++ o ∷ [])
        h.1)
  | inr fits ↦ rw fits h
]

module _ (op : SharedOp) (s : SharedStore) (below : StoreBelow s)
    (timed : ClockBelow s.memory.next op.ts) where
  abbrev op_now : Op
  op_now = op_value s.memory.cells op

  -- What the loop of the log gets, in the memory after the `switch`.
  logged_ops :
      (m : Memory)
      → Extends s.memory m
      → map (op_value m.cells) (s.ops ++ op ∷ [])
        ≡ map (op_value s.memory.cells) s.ops ++ op_now ∷ []
  logged_ops m e =
      map-append (op_value m.cells) s.ops (op ∷ [])
      ∙ cc (ops_same e s.ops below.ops, read_same e op.ts timed)

  abbrev evicted_at : Memory → SharedEviction
  evicted_at m =
      evict_shared m.cells s.cap_bytes (s.ops ++ op ∷ [])
        (s.bytes + approx_size (op_value m.cells op)) []

  evict_value :
      (m : Memory)
      → Extends s.memory m
      → evict s.cap_bytes
          (map (op_value s.memory.cells) s.ops ++ op_now ∷ [])
          (s.bytes + approx_size op_now)
          []
        ≡ eviction_value m.cells (evicted_at m)
  evict_value m e =
      let size : approx_size (op_value m.cells op) ≡ approx_size op_now =
        cc (read_same e op.ts timed) in
      rw (sym (logged_ops m e), sym size)
        (evict-map m.cells s.cap_bytes (s.ops ++ op ∷ [])
          (s.bytes + approx_size (op_value m.cells op)) [])

  log_value_same :
      (now : ℕ) (o : GoMap SharedCrdt) (m : Memory)
      → Extends s.memory m
      → log_op now op_now (record (store_value s) { objects = objects_value m.cells o })
        ≡ store_value (log_shared now op o m s)
  unfolding log_op log_shared OpHeap.append eviction_value
  log_value_same now o m e =
      rw (log_op, OpHeap.append, evict_value m e)
        (elim (Bool-cases (ltb 0 (length (map (op_value m.cells) (evicted_at m).evicted)))) [
          | inl some_evicted ↦ rw some_evicted refl
          | inr kept ↦ rw kept refl
        ])

  log_shared-StoreBelow :
      (now : ℕ) (o : GoMap SharedCrdt) (m : Memory)
      → Extends s.memory m
      → ObjectsBelow m.next o
      → StoreBelow (log_shared now op o m s)
  unfolding log_shared
  log_shared-StoreBelow now o m e h =
      let ops =
        evict_shared-OpsBelow m.next m.cells s.cap_bytes (s.ops ++ op ∷ [])
          (s.bytes + approx_size (op_value m.cells op)) []
          (OpsBelow-snoc m.next s.ops op (OpsBelow-mono s.memory.next m.next s.ops e.more below.ops)
            (ClockBelow-mono s.memory.next m.next op.ts e.more timed)) in
      elim (Bool-cases (ltb 0 (length (map (op_value m.cells) (evicted_at m).evicted)))) [
        | inl some_evicted ↦ rw (log_shared, some_evicted) (record { objects = h; ops = ops })
        | inr kept ↦ rw (log_shared, kept) (record { objects = h; ops = ops })
      ]

-- After an operation, both stores answered alike and hold the same.
pub record IsAppended (now : ℕ) (op : SharedOp) (s : SharedStore)
    (r : Option StoreError × SharedStore) : Type 0 where
  pub same : append_op now (op_value s.memory.cells op) (store_value s) ≡ (r.0, store_value r.1)
  pub below : StoreBelow r.1

module _ (now : ℕ) (op : SharedOp) (s : SharedStore) (below : StoreBelow s)
    (timed : ClockBelow s.memory.next op.ts) where
  append_at :
      (c : Option (GoMap SharedCrdt × Memory))
      → share_op op op.kind s.objects s.memory ≡ c
      → Switched
          (apply_op (op_value s.memory.cells op) op.kind (objects_value s.memory.cells s.objects))
          s.memory
          c
      → IsAppended now op s (append_shared now op s)
  unfolding append_shared append_op
  append_at none q w =
      rw (append_shared, q) (record { same = rw (append_op, w) refl; below = below })
  append_at (some (o, m)) q w =
      rw (append_shared, q)
        (record {
          same =
              rw (append_op, w.1)
                (ap (λ v. (none, v)) (log_value_same op s below timed now o m w.0));
          below = log_shared-StoreBelow op s below timed now o m w.0 w.2;
        })

  -- On a store and an operation whose addresses are in use: where clocks are maps at addresses that
  -- the log and the sets share, `AppendOp` gives the error that it gives where clocks are values,
  -- and the store that it leaves has the same objects, log, counter of bytes, metrics and calls of
  -- the handler. All its addresses are in use.
  pub append_shared-append_op : IsAppended now op s (append_shared now op s)
  append_shared-append_op =
      append_at (share_op op op.kind s.objects s.memory) refl
        (share_op-Switched op s.memory timed op.kind s.objects below.objects)
