-- ===== src/Sync/Loops/Publishing.antt =====
-- What `startPublisher` of CRDTSync/implementation.go does to the counters over many ticks.
use Prim.Native.String.{len as str_len, slice, ◌++◌ as text◌++◌}
use gossip_pubsub.Base.{
  ℕ, ◌+◌, ◌-◌, ◌%◌, ◌≤◌, String, ◌≡◌, refl, inl, inr, Bool, true, false, none, some, List, [], ◌∷◌,
  ◌==◌, if◌then◌else◌, Bool-cases, arith,
}
use gossip_pubsub.Base.Words.{u64_mod, add64}
use gossip_pubsub.MemStore.Counts.{count_of}
use gossip_pubsub.Engine.{get_counter}
use gossip_pubsub.Sync.{Environment, Node, sync_crdt_state}
use gossip_pubsub.Sync.Local.{
  add_local_data, panicked, publish_round, own_counter, one_more, add_local_data-count,
}
use gossip_pubsub.Sync.Loops.{Event, stopped, ticked, publisher_loop}

sum_of_ticks :
    (own : Bool) (x y z one more : ℕ)
    → y % u64_mod ≡ (x + (if own then one else 0)) % u64_mod
    → z % u64_mod ≡ (y + (if own then more else 0)) % u64_mod
    → z % u64_mod ≡ (x + (if own then one + more else 0)) % u64_mod
sum_of_ticks true x y z one more h k = omega arith
sum_of_ticks false x y z one more h k = omega arith

module _ {W E : Type 0} (env : Environment W E) (is_done : W → Bool) (sleep : W → W) where
  add_local_data-node_id :
      (count : ℕ) (n : Node) (w : W) → (add_local_data env count n w).1.node_id ≡ n.node_id
  unfolding add_local_data
  add_local_data-node_id count n w = ground arith

  -- No object of the engine has a nil map.
  abbrev pub NoNilMap : Type 0
  NoNilMap = (w : W) (key : String) → env.nil_map w key ≡ false

  not_panicked :
      (count : ℕ) (n : Node) (w : W)
      → 6 ≤ str_len n.node_id
      → NoNilMap
      → panicked env (add_local_data env count n w).0 ≡ true
      → ⊥
  unfolding add_local_data
  not_panicked count n w long whole p =
      let size = str_len n.node_id in
      ground (
        arith,
        whole w "sample-set",
        whole w (text◌++◌ (slice n.node_id (size - 6) size) "-counter"),
      )

  own_counter-add_local_data :
      (count : ℕ) (n : Node) (w : W) → own_counter (add_local_data env count n w).1 ≡ own_counter n
  unfolding add_local_data
  own_counter-add_local_data count n w = ground arith

  -- A tick does not panic if the node id has 6 bytes at least and no object has a nil map.
  publish_round-returns :
      (count : ℕ) (n : Node) (w : W)
      → 6 ≤ str_len n.node_id
      → NoNilMap
      → (count' : ℕ) × (w' : W) × (publish_round env count n w
          ≡ some (count', (add_local_data env count n w).1, w'))
  unfolding publish_round
  publish_round-returns count n w long whole =
      let (failure, w') = sync_crdt_state env (add_local_data env count n w).1 w in
      elim (Bool-cases (panicked env (add_local_data env count n w).0)) [
        | inl p ↦ absurd (not_panicked count n w long whole p)
        | inr p ↦
            (elim failure [ none ↦ add64 count 1 | some e ↦ count ], w', rw (p, publish_round))
      ]

  -- The ticks in which `AddLocalData` returned no error.
  abbrev pub successes : List Event → ℕ → Node → W → ℕ
  successes [] count n w = 0
  successes (stopped ∷ events) count n w = 0
  successes (ticked ∷ events) count n w = elim (publish_round env count n w) [
    | none ↦ 0
    | some (count', n', w') ↦
        one_more env (add_local_data env count n w).0 + successes events count' n' w'
  ]

  -- What the loop returns, and its effect on the counters.
  pub record Published (events : List Event) (count : ℕ) (n : Node) (w : W) : Type 0 where
    pub next_count : ℕ
    pub node : Node
    pub world : W
    pub returned :
        publisher_loop env is_done sleep events count n w ≡ some (next_count, node, world)
    pub counted :
        (j : String)
        → count_of (get_counter j node.engine) % u64_mod
          ≡ (count_of (get_counter j n.engine)
              + (if own_counter n == j then successes events count n w else 0))
            % u64_mod

  -- For a node id of 6 bytes at least, and where no object of the engine has a nil map, the
  -- publisher's loop does not panic, and where no other goroutine uses the engine meanwhile it adds
  -- one to the node's own counter in each tick in which `AddLocalData` returns no error, whether the state is
  -- then published or not, and nothing to any other counter (modulo 2^64).
  pub publisher_loop-Published :
      (events : List Event) (count : ℕ) (n : Node) (w : W)
      → 6 ≤ str_len n.node_id
      → NoNilMap
      → Published events count n w
  unfolding publisher_loop
  publisher_loop-Published [] count n w long whole = record {
    next_count = count;
    node = n;
    world = w;
    returned = refl;
    counted = λ j. ground arith;
  }
  publisher_loop-Published (stopped ∷ events) count n w long whole = record {
    next_count = count;
    node = n;
    world = w;
    returned = refl;
    counted = λ j. ground arith;
  }
  publisher_loop-Published (ticked ∷ events) count n w long whole =
      let (count', w', p) = publish_round-returns count n w long whole in
      let m = (add_local_data env count n w).1 in
      let same = add_local_data-node_id count n w in
      let later = publisher_loop-Published events count' m w' (rw same long) whole in
      record {
        next_count = later.next_count;
        node = later.node;
        world = later.world;
        returned = rw (p, publisher_loop) later.returned;
        counted = λ j.
            rw (p, successes)
              (sum_of_ticks (own_counter n == j) (count_of (get_counter j n.engine))
                (count_of (get_counter j m.engine)) (count_of (get_counter j later.node.engine))
                (one_more env (add_local_data env count n w).0) (successes events count' m w')
                (add_local_data-count env count n w j)
                (rw (own_counter-add_local_data count n w) at later.counted j));
      }
