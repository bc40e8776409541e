-- ===== src/Sync/Received.antt =====
-- What one call of `receiveCRDTMessage` of CRDTSync/implementation.go does to the node.
use Prim.Native.String.{len as str_len, slice, ◌++◌ as text◌++◌}
use gossip_pubsub.Base.{
  ◌≤◌, String, ◌≡◌, ◌≢◌, ap, ◌∙◌, ◌⊎◌, inl, inr, none, ◌==◌, eq_iff, ltb, ok, Result-cases,
  Bool-cases, arith,
}
use gossip_pubsub.Sync.{
  Environment, Message, Node, add_message, apply_message, accept_message, receive_crdt_message,
}

module _ {W E : Type 0} (env : Environment W E) where
  -- The node after it took the message in.
  abbrev pub taken_in : Message → Node → Node
  taken_in msg n = record n {
    msg_store =
        add_message (text◌++◌ (slice msg.node_id 0 8) (text◌++◌ "-" (env.decimal msg.timestamp)))
          msg n.msg_store;
    engine = apply_message env msg n.engine;
  }

  -- A message arrives in the world `w` that parses, is of another node, and has a node id of 8 bytes
  -- at least.
  pub record Arrives (n : Node) (w : W) (msg : Message) : Type 0 where
    pub raw : String
    pub received : (env.next w).0 ≡ ok raw
    pub parsed : env.unmarshal_message raw ≡ ok msg
    pub foreign : msg.node_id ≢ n.node_id
    pub long_id : 8 ≤ str_len msg.node_id

  -- A call stores a message and applies it to the engine exactly if one arrives that parses, is of
  -- another node and has a long enough id, and then it returns no error. Else it leaves the node as
  -- it was, whatever it returns.
  pub receive_crdt_message_outcome :
      (n : Node) (w : W)
      → ((msg : Message) × Arrives n w msg
          × ((receive_crdt_message env n w).0 ≡ none)
          × ((receive_crdt_message env n w).1 ≡ taken_in msg n))
        ⊎ (((msg : Message) → ¬ Arrives n w msg) × ((receive_crdt_message env n w).1 ≡ n))
  unfolding receive_crdt_message accept_message
  receive_crdt_message_outcome n w = elim (Result-cases (env.next w).0) [
    | inl (e, p) ↦ inr (λ msg a. cc (a.received), rw (p, receive_crdt_message))
    | inr (raw, p) ↦ elim (Result-cases (env.unmarshal_message raw)) [
      | inl (e, q) ↦ inr (λ msg a. ground arith, rw (p, q, receive_crdt_message))
      | inr (msg, q) ↦ elim (Bool-cases (msg.node_id == n.node_id)) [
        | inl own ↦ inr (
          λ msg' a.
              let same : msg' ≡ msg = ground arith in
              a.foreign
                (ap (λ (x : Message). x.node_id) same ∙ (eq_iff msg.node_id n.node_id).0 own),
          rw (p, q, own, receive_crdt_message),
        )
        | inr other ↦ elim (Bool-cases (ltb (str_len msg.node_id) 8)) [
          | inl short ↦ inr (
            λ msg' a.
                let same : msg' ≡ msg = ground arith in
                let size = ap (λ (x : Message). str_len x.node_id) same in ground arith,
            rw (p, q, other, short, receive_crdt_message, accept_message),
          )
          | inr long ↦
              let enough : 8 ≤ str_len msg.node_id = ground arith in
              inl (
                msg,
                record {
                  raw = raw;
                  received = p;
                  parsed = q;
                  foreign = λ e. cc ((eq_iff msg.node_id n.node_id).1 e, other);
                  long_id = enough;
                },
                rw (p, q, other, long, receive_crdt_message, accept_message),
                rw (p, q, other, long, receive_crdt_message, accept_message),
              )
        ]
      ]
    ]
  ]
