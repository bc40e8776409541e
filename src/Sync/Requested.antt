-- ===== src/Sync/Requested.antt =====
-- A request for the state and its answer between two nodes of CRDTSync/implementation.go.
mod Examples
use Prim.Native.String.{len as str_len}
use gossip_pubsub.Base.{
  ℕ, ◌≤◌, String, ◌≡◌, ◌≢◌, refl, sym, ap, subst, ◌∙◌, ◌⊎◌, inl, inr, Bool, true, false, ◌&&◌,
  Option, none, some, ◌==◌, eq_iff, ltb, if◌then◌else◌, Result, ok, err, Option-cases, Bool-cases,
  arith,
}
use gossip_pubsub.GoMap.{lookup}
use gossip_pubsub.Crdt.{Crdt}
use gossip_pubsub.Engine.{Engine, get_all_crdts}
use gossip_pubsub.Sync.{
  Environment, Message, Node, can_publish, encode_crdt, decode_crdt, sync_message, send,
  sync_crdt_state, apply_message, accept_message, receive_crdt_message,
}
use gossip_pubsub.Sync.Applied.{received}
use gossip_pubsub.Sync.Delivered.{sync_message_delivers}
use gossip_pubsub.Sync.Received.{taken_in, Arrives}

module _ {W E : Type 0} (env : Environment W E) where
  -- A call that takes a message in.
  taken :
      (n : Node) (w : W) (msg : Message)
      → Arrives env n w msg
      → receive_crdt_message env n w ≡ accept_message env msg n (env.next w).1
  unfolding receive_crdt_message
  taken n w msg a = elim (Bool-cases (msg.node_id == n.node_id)) [
    | inl own ↦ absurd (a.foreign ((eq_iff msg.node_id n.node_id).0 own))
    | inr other ↦ rw (a.received, a.parsed, other, receive_crdt_message)
  ]

  request_keeps :
      (msg : Message) (e : Engine) → msg.kind ≡ "sync_request" → apply_message env msg e ≡ e
  unfolding apply_message
  request_keeps msg e h = let not_sync : (msg.kind == "sync") ≡ false = rw h refl in ground arith

  same_message :
      (n : Node) (msg : Message) (w : W)
      → msg.kind ≡ "sync_request"
      → sync_message env (taken_in env msg n) w ≡ sync_message env n w
  unfolding sync_message
  same_message n msg w kind =
      ap (λ e. sync_message env (record (taken_in env msg n) { engine = e }) w)
        (request_keeps msg n.engine kind)

  -- A request that arrives at a publishing node is answered with its state.
  answered :
      (n : Node) (w : W) (msg : Message) (raw : String)
      → Arrives env n w msg
      → msg.kind ≡ "sync_request"
      → can_publish n.mode ≡ true
      → env.marshal_message (sync_message env n (env.next w).1) ≡ ok raw
      → (receive_crdt_message env n w).2 ≡ (env.publish raw (env.next w).1).1
  unfolding accept_message sync_crdt_state send
  answered n w msg raw a kind publishes marshals =
      let w' = (env.next w).1 in
      let request : (msg.kind == "sync_request") ≡ true = rw kind refl in
      let long : ltb (str_len msg.node_id) 8 ≡ false = ground (arith, a.long_id) in
      let marshals' : env.marshal_message (sync_message env (taken_in env msg n) w') ≡ ok raw =
        ap env.marshal_message (same_message n msg w' kind) ∙ marshals in
      ap (λ r. r.2) (taken n w msg a)
      ∙ rw (long, request, publishes, accept_message) (rw (marshals', sync_crdt_state, send) refl)

  engine-taken :
      (n : Node) (w : W) (msg : Message)
      → Arrives env n w msg
      → (receive_crdt_message env n w).1.engine ≡ apply_message env msg n.engine
  unfolding accept_message
  engine-taken n w msg a =
      let long : ltb (str_len msg.node_id) 8 ≡ false = ground (arith, a.long_id) in
      ap (λ r. r.1.engine) (taken n w msg a) ∙ rw (long, accept_message) refl

  -- A request for the state that arrives at a node that publishes is answered: the node publishes
  -- its whole state at once, if the message marshals. When the answer arrives at a node, that node
  -- stores each object that the answer carries and its decoder reads back, or the merge of its own
  -- object with it, unless that merge fails.
  pub request_answered :
      (p s : Node) (w v : W) (request : Message) (raw j raw_object : String) (c : Crdt)
      → Arrives env p w request
      → request.kind ≡ "sync_request"
      → can_publish p.mode ≡ true
      → env.marshal_message (sync_message env p (env.next w).1) ≡ ok raw
      → Arrives env s v (sync_message env p (env.next w).1)
      → lookup j (get_all_crdts p.engine) ≡ some c
      → encode_crdt env c ≡ ok raw_object
      → decode_crdt env raw_object ≡ some c
      → ((receive_crdt_message env p w).2 ≡ (env.publish raw (env.next w).1).1)
        × (lookup j (receive_crdt_message env s v).1.engine.mem.objects
            ≡ received (lookup j (get_all_crdts s.engine)) (lookup j s.engine.mem.objects) c)
  request_answered p s w v request raw j raw_object c a kind publishes marshals a' held e d = (
    answered p w request raw a kind publishes marshals,
    ap (λ (g : Engine). lookup j g.mem.objects)
          (engine-taken s v (sync_message env p (env.next w).1) a')
        ∙ sync_message_delivers env p (env.next w).1 s.engine j raw_object c c held e d,
  )
