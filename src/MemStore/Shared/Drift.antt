-- ===== src/MemStore/Shared/Drift.antt =====
-- What `PruneVectorClocks` of CRDT/MemoryStore.go does to the operations in the log.
use mathlib.Core.List.{map}
use gossip_pubsub.Base.{
  refl, if◌then◌else◌, ℕ, ◌+◌, ◌-◌, ◌≤◌, String, ◌≡◌, Bool, Option, none, some, List, [], ◌∷◌, eqb,
  inl, inr, Bool-cases, arith,
}
use gossip_pubsub.GoMap.{GoMap, for_range}
use gossip_pubsub.GoMap.Range.{for_range_inv}
use gossip_pubsub.Clock.{VectorClock}
use gossip_pubsub.OpHeap.Bounded.{total_size}
use gossip_pubsub.OpHeap.Drift.{Drifted}
use gossip_pubsub.OpHeap.Sizes.{
  Shrinks, Shrinks-refl, Shrinks-trans, prune-Shrinks, approx_size_mono,
}
use gossip_pubsub.Clock
use gossip_pubsub.MemStore.Shared.Pruned.{stands_among, at-prune_objects}
use gossip_pubsub.MemStore.Shared.{
  SharedOp, SharedCrdt, shared_set, own_counter, SharedStore, read, op_value, log_value, prune_at,
  prune_cells, prune_shared,
}

-- No clock became larger.
AllShrink : (ℕ → VectorClock) → (ℕ → VectorClock) → Type 0
AllShrink before after = (a : ℕ) → Shrinks (after a) (before a)

module _ (active : GoMap Bool) (before : ℕ → VectorClock) where
  prune_at-AllShrink :
      (e : String) (a : ℕ) (cells : ℕ → VectorClock)
      → AllShrink before cells
      → AllShrink before (prune_at active e a cells)
  unfolding prune_at AllShrink
  prune_at-AllShrink e a cells h b = elim (Bool-cases (eqb a b)) [
    | inl same ↦
        let at : a ≡ b = ground arith in
        rw same (Shrinks-trans (prune-Shrinks active (cells a)) (rw at (h b)))
    | inr other ↦ rw other (h b)
  ]

  prune_cells-AllShrink :
      (key : String) (c : SharedCrdt) (cells : ℕ → VectorClock)
      → AllShrink before cells
      → AllShrink before (prune_cells active key c cells)
  unfolding prune_cells
  prune_cells-AllShrink key (shared_set s) cells h =
      for_range_inv (AllShrink before) (prune_at active) prune_at-AllShrink s.removes
        (for_range (prune_at active) s.adds cells)
        (for_range_inv (AllShrink before) (prune_at active) prune_at-AllShrink s.adds cells h)
  prune_cells-AllShrink key (own_counter c) cells h = h

read-Shrinks :
    (before after : ℕ → VectorClock) (ts : Option ℕ)
    → AllShrink before after
    → Shrinks (read after ts) (read before ts)
unfolding AllShrink
read-Shrinks before after none h = Shrinks-refl []
read-Shrinks before after (some a) h = h a

total_size-Shrinks :
    (before after : ℕ → VectorClock) (l : List SharedOp)
    → AllShrink before after
    → total_size (map (op_value after) l) ≤ total_size (map (op_value before) l)
unfolding total_size
total_size-Shrinks before after [] h = omega arith
total_size-Shrinks before after (o ∷ l) h = omega (
  arith,
  total_size-Shrinks before after l h,
  approx_size_mono (op_value before o) (read after o.ts) (read-Shrinks before after o.ts h),
)

module _ (active : GoMap Bool) (s : SharedStore) (d : ℕ) (drifted : Drifted d (log_value s)) where
  -- `PruneVectorClocks` prunes the clock at each address that stands in a set, and no other. The
  -- operations in the log get smaller by some number of bytes, 0 or more, while the counter of bytes
  -- stays: it is too large by that much more than before.
  pub prune_shared_drifts :
      ((a : ℕ)
        → (prune_shared active s).memory.cells a ≡ (
            if stands_among active a s.objects
            then Clock.prune active (s.memory.cells a)
            else s.memory.cells a))
      × (more : ℕ) × (total_size (log_value s).ops
          ≡ total_size (log_value (prune_shared active s)).ops + more)
      × ((prune_shared active s).bytes ≡ s.bytes)
      × Drifted (d + more) (log_value (prune_shared active s))
  unfolding prune_shared Drifted AllShrink
  prune_shared_drifts =
      let before = s.memory.cells in
      let after = for_range (prune_cells active) s.objects before in
      let less = total_size-Shrinks before after s.ops (
        for_range_inv (AllShrink before) (prune_cells active) (prune_cells-AllShrink active before)
          s.objects before (λ a. Shrinks-refl (before a))) in
      (
        λ a. at-prune_objects active s.objects a before,
        total_size (map (op_value before) s.ops) - total_size (map (op_value after) s.ops),
        omega (arith, less),
        refl,
        omega (arith, less, drifted),
      )
