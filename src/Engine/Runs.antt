-- ===== src/Engine/Runs.antt =====
-- Sequences of engine calls (CRDT/CRDT_DBOps.go) from a new engine.
use gossip_pubsub.Base.{
  length, ℕ, ◌+◌, ◌*◌, ◌≤◌, ◌%◌, String, ◌≡◌, refl, ap, ◌∙◌, Bool, true, false, Option, none, some,
  List, [], ◌∷◌, ◌==◌, if◌then◌else◌, arith, inl, inr,
}
use gossip_pubsub.Base.Words.{u64_mod, add64}
use gossip_pubsub.GoMap.{IsMap}
use gossip_pubsub.Clock.{VectorClock}
use gossip_pubsub.OpHeap.{Op, op_add, op_remove, new_op_heap}
use gossip_pubsub.OpHeap.Bounded.{total_size-lower}
use gossip_pubsub.MemStore.{new_mem_store}
use gossip_pubsub.MemStore.Validity.{
  IsValid, append_op-IsValid, new_mem_store-IsValid, cap-append_op,
}
use gossip_pubsub.MemStore.Reads.{append_op_outcome}
use gossip_pubsub.MemStore.Counts.{get_counter_value-append_op, count_of, set_kind, count-set_op}
use gossip_pubsub.Engine.{
  Engine, EngineError, InputError, submit, checked, set_op, counter_op, new_engine_mem_only,
  lww_add, lww_remove, counter_inc, get_counter, validate_input, validate_counter_input,
}

pub data Call : Type 0 where
  add remove : ℕ → String → String → String → VectorClock → Call
  increment : ℕ → String → String → ℕ → VectorClock → Call

unfoldable pub call : Call → Engine → Option EngineError × Engine
call (add now n k e ts) g = lww_add now n k e ts g
call (remove now n k e ts) g = lww_remove now n k e ts g
call (increment now n k d ts) g = counter_inc now n k d ts g

abbrev pub run : List Call → Engine → Engine
run [] g = g
run (c ∷ cs) g = run cs (call c g).1

-- The clock that a call carries has distinct nodes, as every Go map does.
abbrev pub clock_of : Call → VectorClock
clock_of (add now n k e ts) = ts
clock_of (remove now n k e ts) = ts
clock_of (increment now n k d ts) = ts

abbrev pub AllMaps : List Call → Type 0
AllMaps [] = Unit
AllMaps (c ∷ cs) = IsMap (clock_of c) × AllMaps cs

submit_error :
    (now : ℕ) (op : Op) (g : Engine) (r : EngineError)
    → (submit now op g).0 ≡ some r
    → (submit now op g).1 ≡ g
unfolding submit
submit_error now op g r e = elim (append_op_outcome now op g.mem) [
  | inl (refused, clash) ↦ ap (λ p. record { mem = p.1 }) refused
  | inr (ok_op, free, at) ↦ absurd (ground arith)
]

checked_error :
    (v : Option InputError) (now : ℕ) (op : Op) (g : Engine) (r : EngineError)
    → (checked v now op g).0 ≡ some r
    → (checked v now op g).1 ≡ g
unfolding checked
checked_error none now op g r h = submit_error now op g r h
checked_error (some bad) now op g r h = refl

-- A call that returns an error, of the input checks or of the store, leaves the engine as it was.
pub call_error :
    (c : Call) (g : Engine) (r : EngineError) → (call c g).0 ≡ some r → (call c g).1 ≡ g
unfolding call lww_add lww_remove counter_inc
call_error (add now n k e ts) g r h =
    checked_error (validate_input n k e) now (set_op now op_add n k e ts) g r h
call_error (remove now n k e ts) g r h =
    checked_error (validate_input n k e) now (set_op now op_remove n k e ts) g r h
call_error (increment now n k d ts) g r h =
    checked_error (validate_counter_input n k d) now (counter_op now n k d ts) g r h

-- The invariant of an engine whose log was created with the bound `cap`.
pub record IsSound (cap : ℕ) (g : Engine) : Type 0 where
  pub valid : IsValid g.mem
  pub bound : g.mem.ops.cap_bytes ≡ cap

checked-IsSound :
    (cap : ℕ) (v : Option InputError) (now : ℕ) (op : Op) (g : Engine)
    → IsMap op.ts
    → IsSound cap g
    → IsSound cap (checked v now op g).1
unfolding checked submit
checked-IsSound cap none now op g m s = record {
  valid = append_op-IsValid now op g.mem m s.valid;
  bound = cap-append_op now op g.mem ∙ s.bound;
}
checked-IsSound cap (some bad) now op g m s = s

call-IsSound :
    (cap : ℕ) (c : Call) (g : Engine)
    → IsMap (clock_of c)
    → IsSound cap g
    → IsSound cap (call c g).1
unfolding call lww_add lww_remove counter_inc
call-IsSound cap (add now n k e ts) g m s =
    checked-IsSound cap (validate_input n k e) now (set_op now op_add n k e ts) g m s
call-IsSound cap (remove now n k e ts) g m s =
    checked-IsSound cap (validate_input n k e) now (set_op now op_remove n k e ts) g m s
call-IsSound cap (increment now n k d ts) g m s =
    checked-IsSound cap (validate_counter_input n k d) now (counter_op now n k d ts) g m s

run-IsSound :
    (cap : ℕ) (cs : List Call) (g : Engine) → AllMaps cs → IsSound cap g → IsSound cap (run cs g)
run-IsSound cap [] g m s = s
run-IsSound cap (c ∷ cs) g m s = run-IsSound cap cs (call c g).1 m.1 (call-IsSound cap c g m.0 s)

new_engine-IsSound : (cap : ℕ) → IsSound cap (new_engine_mem_only cap)
unfolding new_engine_mem_only new_mem_store new_op_heap
new_engine-IsSound cap = record { valid = new_mem_store-IsValid cap; bound = refl }

-- Whatever calls of LWWAdd, LWWRemove and CounterInc a new engine receives, and no other calls, if the
-- clocks that they bring are maps, its store is valid, its log stays within the bound that it was
-- created with, and it holds at most one operation for each 144 bytes of the bound.
pub run_new :
    (cap : ℕ) (cs : List Call)
    → AllMaps cs
    → IsValid (run cs (new_engine_mem_only cap)).mem
      × ((run cs (new_engine_mem_only cap)).mem.ops.bytes ≤ cap)
      × (144 * length (run cs (new_engine_mem_only cap)).mem.ops.ops ≤ cap)
run_new cap cs m =
    let s = run-IsSound cap cs (new_engine_mem_only cap) m (new_engine-IsSound cap) in
    (
      s.valid,
      omega (arith, s.bound, s.valid.log.bounded),
      omega (
        arith,
        s.bound,
        s.valid.log.bounded,
        s.valid.log.counted,
        total_size-lower (run cs (new_engine_mem_only cap)).mem.ops.ops,
      ),
    )

-- What one call adds to the counter of `j`: its delta, if it is an increment of that key and is
-- accepted.
abbrev pub gain : String → Call → Option EngineError → ℕ
gain j (increment now n k d ts) none = if k == j then d else 0
gain j (increment now n k d ts) (some r) = 0
gain j (add now n k e ts) r = 0
gain j (remove now n k e ts) r = 0

abbrev pub gains : String → List Call → Engine → ℕ
gains j [] g = 0
gains j (c ∷ cs) g = gain j c (call c g).0 + gains j cs (call c g).1

checked_sets-count :
    (j : String) (v : Option InputError) (now : ℕ) (is_add : Bool) (n k e : String)
    (ts : VectorClock) (g : Engine)
    → count_of (get_counter j (checked v now (set_op now (set_kind is_add) n k e ts) g).1)
      ≡ count_of (get_counter j g)
unfolding checked submit get_counter
checked_sets-count j none now is_add n k e ts g =
    count-set_op now (set_op now (set_kind is_add) n k e ts) is_add g.mem j refl
checked_sets-count j (some bad) now is_add n k e ts g = refl

checked-increment-count :
    (j : String) (v : Option InputError) (now : ℕ) (n k : String) (d : ℕ) (ts : VectorClock)
    (g : Engine)
    → count_of (get_counter j (checked v now (counter_op now n k d ts) g).1) % u64_mod
      ≡ (count_of (get_counter j g)
          + gain j (increment now n k d ts) (checked v now (counter_op now n k d ts) g).0)
        % u64_mod
unfolding checked submit get_counter add64
checked-increment-count j none now n k d ts g =
    let op = counter_op now n k d ts in
    elim (append_op_outcome now op g.mem) [
      | inl (refused, clash) ↦ ground arith
      | inr (ok_op, free, at) ↦
          ground (arith, get_counter_value-append_op now op g.mem j refl ok_op)
    ]
checked-increment-count j (some bad) now n k d ts g = omega arith

call-count :
    (j : String) (c : Call) (g : Engine)
    → count_of (get_counter j (call c g).1) % u64_mod
      ≡ (count_of (get_counter j g) + gain j c (call c g).0) % u64_mod
unfolding call lww_add lww_remove counter_inc
call-count j (add now n k e ts) g =
    omega (arith, checked_sets-count j (validate_input n k e) now true n k e ts g)
call-count j (remove now n k e ts) g =
    omega (arith, checked_sets-count j (validate_input n k e) now false n k e ts g)
call-count j (increment now n k d ts) g =
    checked-increment-count j (validate_counter_input n k d) now n k d ts g

-- Through any run a counter grows by the accepted increments of its key, modulo 2^64, and by
-- nothing else.
pub run-count :
    (j : String) (cs : List Call) (g : Engine)
    → count_of (get_counter j (run cs g)) % u64_mod
      ≡ (count_of (get_counter j g) + gains j cs g) % u64_mod
run-count j [] g = omega arith
run-count j (c ∷ cs) g = omega (arith, run-count j cs (call c g).1, call-count j c g)
