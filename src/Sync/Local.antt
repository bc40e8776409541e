-- ===== src/Sync/Local.antt =====
-- `AddLocalData` and a tick of `startPublisher` of CRDTSync/implementation.go, and what they add.
use Prim.Native.String.{len as str_len, slice, ◌++◌ as text◌++◌}
use gossip_pubsub.Base.{
  ◌||◌, Bool, true, false, ℕ, ◌+◌, ◌-◌, ◌%◌, String, ◌≡◌, Option, none, some, List, [], ◌∷◌, ◌==◌,
  ltb, if◌then◌else◌, Option-cases, Bool-cases, inl, inr, arith,
}
use gossip_pubsub.Base.Words.{u64_mod, add64}
use gossip_pubsub.Clock.{VectorClock}
use gossip_pubsub.MemStore.Counts.{count_of}
use gossip_pubsub.Engine.{EngineError, lww_add, counter_inc, get_counter}
use gossip_pubsub.Engine.Runs.{Call, add, increment, call, run, gains, run-count, call_error}
use gossip_pubsub.Sync.{Environment, Node, sync_crdt_state}

pub data LocalError : Type 0 where
  set_failed counter_failed : EngineError → LocalError
  -- a slice of a node id that is shorter than 6 bytes
  panics_locally : LocalError

module _ {W E : Type 0} (env : Environment W E) where
  -- What makes `AddLocalData` panic: the slice of a short node id, and a write into a nil map of an
  -- object that was received.
  abbrev pub local_panics : Node → W → Bool
  local_panics n w =
      let size = str_len n.node_id in
      ltb size 6
      || env.nil_map w "sample-set"
      || env.nil_map w (text◌++◌ (slice n.node_id (size - 6) size) "-counter")

  -- `AddLocalData`; the two calls of the engine read the clock once.
  unfoldable pub add_local_data : ℕ → Node → W → Option LocalError × Node
  unfolding add64
  add_local_data count n w =
      let size = str_len n.node_id in
      let peer_id = slice n.node_id (size - 6) size in
      let element = text◌++◌ peer_id (text◌++◌ "-" (env.decimal count)) in
      let counter_key = text◌++◌ peer_id "-counter" in
      let ts = (n.node_id, add64 count 1) ∷ [] in
      let (added, engine) = lww_add (env.now w) n.node_id "sample-set" element ts n.engine in
      let (counted, engine') = counter_inc (env.now w) n.node_id counter_key 1 ts engine in
      if local_panics n w then (some panics_locally, n) else elim added [
        | some e ↦ (some (set_failed e), record n { engine = engine })
        | none ↦ (
          elim counted [ some e ↦ some (counter_failed e) | none ↦ none ],
          record n { engine = engine' },
        )
      ]

  abbrev pub panicked : Option LocalError → Bool
  panicked none = false
  panicked (some (set_failed e)) = false
  panicked (some (counter_failed e)) = false
  panicked (some panics_locally) = true

  -- One tick of `startPublisher`: the next counter, the node and the world; `none` is a panic.
  unfoldable pub publish_round : ℕ → Node → W → Option (ℕ × Node × W)
  unfolding add_local_data sync_crdt_state add64
  publish_round count n w =
      let (failed, n') = add_local_data count n w in
      let (failure, w') = sync_crdt_state env n' w in
      if panicked failed
      then none
      else some (elim failure [ none ↦ add64 count 1 | some e ↦ count ], n', w')

-- The key of a node's own counter.
abbrev pub own_counter : Node → String
own_counter n = text◌++◌ (slice n.node_id (str_len n.node_id - 6) (str_len n.node_id)) "-counter"

module _ {W E : Type 0} (env : Environment W E) where
  own_element : ℕ → Node → String
  own_element count n =
      text◌++◌ (slice n.node_id (str_len n.node_id - 6) (str_len n.node_id))
        (text◌++◌ "-" (env.decimal count))

  own_clock : ℕ → Node → VectorClock
  own_clock count n = (n.node_id, add64 count 1) ∷ []

  added : ℕ → Node → W → Call
  added count n w = add (env.now w) n.node_id "sample-set" (own_element count n) (own_clock count n)

  counted : ℕ → Node → W → Call
  counted count n w = increment (env.now w) n.node_id (own_counter n) 1 (own_clock count n)

  -- A call that returns no error was two calls of the engine that were accepted.
  add_local_data-run :
      (count : ℕ) (n : Node) (w : W)
      → (add_local_data env count n w).0 ≡ none
      → ((add_local_data env count n w).1.engine
          ≡ run (added count n w ∷ counted count n w ∷ []) n.engine)
        × ((call (counted count n w) (call (added count n w) n.engine).1).0 ≡ none)
  unfolding add_local_data added counted own_element own_clock call
  add_local_data-run count n w h = elim (Bool-cases (local_panics env n w)) [
    | inl short ↦ absurd (ground arith)
    | inr long ↦ elim (Option-cases (call (added count n w) n.engine).0) [
      | inr (e, p) ↦ absurd (ground arith)
      | inl p ↦
          elim (Option-cases (call (counted count n w) (call (added count n w) n.engine).1).0) [
            | inr (e, q) ↦ absurd (ground arith)
            | inl q ↦ (ground arith, q)
          ]
    ]
  ]

  -- A call that returns an error changed no counter: either nothing was done, or the add alone.
  add_local_data_failed :
      (count : ℕ) (n : Node) (w : W) (e : LocalError) (j : String)
      → (add_local_data env count n w).0 ≡ some e
      → count_of (get_counter j (add_local_data env count n w).1.engine) % u64_mod
        ≡ count_of (get_counter j n.engine) % u64_mod
  unfolding add_local_data added counted own_element own_clock call
  add_local_data_failed count n w e j h =
      let first = added count n w in
      let second = counted count n w in
      elim (Bool-cases (local_panics env n w)) [
        | inl short ↦ ground arith
        | inr long ↦ elim (Option-cases (call first n.engine).0) [
          | inr (c, p) ↦ ground (arith, call_error first n.engine c p)
          | inl p ↦ elim (Option-cases (call second (call first n.engine).1).0) [
            | inl q ↦ absurd (ground arith)
            | inr (c, q) ↦ ground (
              arith,
              call_error second (call first n.engine).1 c q,
              run-count j (first ∷ []) n.engine,
            )
          ]
        ]
      ]

  abbrev pub one_more : Option LocalError → ℕ
  one_more none = 1
  one_more (some e) = 0

  -- A call that returns no error adds one to the node's own counter (modulo 2^64); it adds nothing
  -- to any other counter, and a call that returns an error adds nothing to any.
  pub add_local_data-count :
      (count : ℕ) (n : Node) (w : W) (j : String)
      → count_of (get_counter j (add_local_data env count n w).1.engine) % u64_mod
        ≡ (count_of (get_counter j n.engine)
            + (if own_counter n == j then one_more (add_local_data env count n w).0 else 0))
          % u64_mod
  unfolding added counted
  add_local_data-count count n w j = elim (Option-cases (add_local_data env count n w).0) [
    | inr (e, h) ↦ ground (arith, add_local_data_failed count n w e j h)
    | inl h ↦
        let (same, accepted) = add_local_data-run count n w h in
        let calls : List Call = added count n w ∷ counted count n w ∷ [] in
        let gained : gains j calls n.engine ≡ (if own_counter n == j then 1 else 0) =
          ground (arith, accepted) in
        rw (same, h) (omega (arith, run-count j calls n.engine, gained))
  ]
