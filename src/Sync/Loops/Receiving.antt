-- ===== src/Sync/Loops/Receiving.antt =====
-- What `startSubscriber` of CRDTSync/implementation.go does to a node over many rounds.
use Prim.Native.String.{len as str_len}
use gossip_pubsub.Base.{
  ℕ, zero, suc, ◌+◌, ◌≤◌, String, ◌≡◌, ◌≢◌, refl, ap, ◌∙◌, ◌⊎◌, inl, inr, Bool, Option, some, List,
  [], ◌∷◌, ◌==◌, Bool-cases, ok, Result-cases, eq_iff, length, arith,
}
use gossip_pubsub.Sync.{
  Environment, Message, Node, SyncError, receive_crdt_message, accept_message, panics,
}
use gossip_pubsub.Sync.Received.{taken_in, receive_crdt_message_outcome}
use gossip_pubsub.Sync.Loops.{Step, go_on, leave, crash, after_receive, subscriber_loop}

module _ {W E : Type 0} (env : Environment W E) (is_done : W → Bool) (sleep : W → W) where
  -- No message of another node that arrives has a node id shorter than 8 bytes.
  abbrev pub LongIds : String → Type 0
  LongIds id =
      (w : W) (raw : String) (msg : Message)
      → (env.next w).0 ≡ ok raw
      → env.unmarshal_message raw ≡ ok msg
      → msg.node_id ≢ id
      → 8 ≤ str_len msg.node_id

  receive-no_panic :
      (n : Node) (w : W) → LongIds n.node_id → (receive_crdt_message env n w).0 ≢ some panics
  unfolding receive_crdt_message accept_message
  receive-no_panic n w h e = elim (Result-cases (env.next w).0) [
    | inl (x, p) ↦ ground arith
    | inr (raw, p) ↦ elim (Result-cases (env.unmarshal_message raw)) [
      | inl (x, q) ↦ ground arith
      | inr (msg, q) ↦ elim (Bool-cases (msg.node_id == n.node_id)) [
        | inl own ↦ ground arith
        | inr other ↦
            let long = h w raw msg p q (λ e. cc ((eq_iff msg.node_id n.node_id).1 e, other)) in
            ground arith
      ]
    ]
  ]

  abbrev pub take_all : List Message → Node → Node
  take_all [] n = n
  take_all (msg ∷ msgs) n = take_all msgs (taken_in env msg n)

  -- Messages of other nodes.
  abbrev pub AllForeign : String → List Message → Type 0
  AllForeign id [] = Unit
  AllForeign id (msg ∷ msgs) = (msg.node_id ≢ id) × (8 ≤ str_len msg.node_id) × AllForeign id msgs

  pub record Takes (rounds : ℕ) (n : Node) (w : W) : Type 0 where
    pub node : Node
    pub world : W
    pub taken : List Message
    pub returned : subscriber_loop env is_done sleep rounds n w ≡ some (node, world)
    pub foreign : AllForeign n.node_id taken
    pub bounded : length taken ≤ rounds
    pub held : node ≡ take_all taken n

  Step-cases : (s : Step) → (s ≡ crash) ⊎ (s ≡ leave) ⊎ (s ≡ go_on)
  Step-cases crash = inl refl
  Step-cases leave = inr (inl refl)
  Step-cases go_on = inr (inr refl)

  crash-panics :
      (o : Option (SyncError E)) (w : W)
      → (after_receive env is_done sleep o w).0 ≡ crash
      → o ≡ some panics
  unfolding after_receive
  crash-panics o w h = ground arith

  -- One call takes one message in, or none.
  took_before :
      (n : Node) (w : W) (node : Node) (taken : List Message)
      → AllForeign n.node_id taken
      → node ≡ take_all taken (receive_crdt_message env n w).1
      → (all : List Message) × AllForeign n.node_id all
        × (length all ≤ length taken + 1)
        × (node ≡ take_all all n)
  took_before n w node taken foreign held = elim (receive_crdt_message_outcome env n w) [
    | inl (msg, arrived, quiet, after) ↦ (
      msg ∷ taken,
      (arrived.foreign, arrived.long_id, foreign),
      omega arith,
      held ∙ ap (take_all taken) after,
    )
    | inr (none_came, after) ↦ (taken, foreign, omega arith, held ∙ ap (take_all taken) after)
  ]

  receive-node_id : (n : Node) (w : W) → (receive_crdt_message env n w).1.node_id ≡ n.node_id
  receive-node_id n w = elim (receive_crdt_message_outcome env n w) [
    | inl (msg, arrived, quiet, after) ↦ ap (λ (x : Node). x.node_id) after
    | inr (none_came, after) ↦ ap (λ (x : Node). x.node_id) after
  ]

  -- If no message of another node has an id shorter than 8 bytes, any number of rounds of the
  -- subscriber's loop runs without a panic, and all that it does to the node is to take in, in
  -- order, at most one message of another node in each round.
  pub subscriber_loop-Takes : (rounds : ℕ) (n : Node) (w : W) → LongIds n.node_id → Takes rounds n w
  unfolding subscriber_loop
  subscriber_loop-Takes zero n w long = record {
    node = n;
    world = w;
    taken = [];
    returned = refl;
    foreign = tt;
    bounded = omega arith;
    held = refl;
  }
  subscriber_loop-Takes (suc rounds) n w long =
      let (failure, n', w') = receive_crdt_message env n w in
      let (step, w'') = after_receive env is_done sleep failure w' in
      let same = receive-node_id n w in
      let rest = subscriber_loop-Takes rounds n' w'' (rw same long) in
      elim (Bool-cases (is_done w)) [
        | inl done ↦ record {
          node = n;
          world = w;
          taken = [];
          returned = rw (done, subscriber_loop);
          foreign = tt;
          bounded = omega arith;
          held = refl;
        }
        | inr busy ↦ elim (Step-cases step) [
          | inl p ↦ absurd (receive-no_panic n w long (crash-panics failure w' p))
          | inr (inl p) ↦
              let (all, foreign, bounded, held) = took_before n w n' [] tt refl in
              record {
                node = n';
                world = w'';
                taken = all;
                returned = rw (busy, p, subscriber_loop);
                foreign = foreign;
                bounded = omega arith;
                held = held;
              }
          | inr (inr p) ↦
              let (all, foreign, bounded, held) =
                took_before n w rest.node rest.taken (rw same at rest.foreign) rest.held in
              record {
                node = rest.node;
                world = rest.world;
                taken = all;
                returned = rw (busy, p, subscriber_loop) rest.returned;
                foreign = foreign;
                bounded = omega (arith, rest.bounded);
                held = held;
              }
        ]
      ]
