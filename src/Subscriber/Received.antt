-- ===== src/Subscriber/Received.antt =====
-- What the loop of Subscriber/Subscriber.go counts.
use gossip_pubsub.Base.{
  ℕ, zero, suc, ◌+◌, ◌%◌, String, ◌≡◌, refl, sym, subst, true, false, Option, none, some, is_some,
  List, [], ◌∷◌, ◌||◌, if◌then◌else◌, Result, ok, err, Option-cases, Bool-cases, inl, inr, arith,
}
use gossip_pubsub.Base.Words.{u64_mod, add64}
use gossip_pubsub.Base.Sorting.{elem}
use gossip_pubsub.GoMap.{lookup}
use gossip_pubsub.GoMap.Laws.{lookup-insert}
use gossip_pubsub.Subscriber.{
  Message, Subscription, SubscriberMetrics, count_validation_error, count_received,
  validate_message, ValidationError, receive, receive_message, settle, Next, run,
}

-- What one round of the loop meets.
pub data Event : Type 0 where
  failed invalid : Event
  valid : Message → Event

abbrev pub count_valid : List Event → ℕ
count_valid [] = 0
count_valid (valid msg ∷ l) = 1 + count_valid l
count_valid (_ ∷ l) = count_valid l

abbrev pub count_invalid : List Event → ℕ
count_invalid [] = 0
count_invalid (invalid ∷ l) = 1 + count_invalid l
count_invalid (_ ∷ l) = count_invalid l

abbrev pub count_failed : List Event → ℕ
count_failed [] = 0
count_failed (failed ∷ l) = 1 + count_failed l
count_failed (_ ∷ l) = count_failed l

abbrev pub message_event : Option Message → Event
message_event none = invalid
message_event (some msg) = elim (validate_message (some msg)) [
  | none ↦ valid msg
  | some e ↦ invalid
]

module _ {W E : Type 0} (sub : Subscription W E) where
  -- The events of the first rounds, up to the end of the context: an error of `Next` that the end
  -- of the context causes is none.
  unfoldable pub events : ℕ → W → List Event
  events zero w = []
  events (suc rounds) w =
      let w' = (sub.next w).1 in
      let after_error = events rounds (sub.sleep w') in
      let after_message = events rounds w' in
      if sub.is_done w then [] else elim (sub.next w).0 [
        | err e ↦ (if sub.is_done w' then [] else failed ∷ after_error)
        | ok msg ↦ message_event msg ∷ after_message
      ]

  abbrev pub senders : List Event → List String
  senders [] = []
  senders (valid msg ∷ l) = sub.peer_text msg.received_from ∷ senders l
  senders (_ ∷ l) = senders l

  -- The metrics `n` count the events on top of `m`, modulo 2^64, and the peers are those seen before
  -- and the senders of the valid messages.
  pub record Accounts (l : List Event) (m n : SubscriberMetrics) : Type 0 where
    pub messages_received :
        n.messages_received % u64_mod ≡ (m.messages_received + count_valid l) % u64_mod
    pub validation_errors :
        n.validation_errors % u64_mod ≡ (m.validation_errors + count_invalid l) % u64_mod
    pub receive_errors : n.receive_errors % u64_mod ≡ (m.receive_errors + count_failed l) % u64_mod
    pub unique_peers :
        (p : String)
        → is_some (lookup p n.unique_peers)
          ≡ (elem p (senders l) || is_some (lookup p m.unique_peers))

  Accounts-none : (m : SubscriberMetrics) → Accounts [] m m
  Accounts-none m = record {
    messages_received = omega arith;
    validation_errors = omega arith;
    receive_errors = omega arith;
    unique_peers = λ p. refl;
  }

  Accounts-failed :
      (l : List Event) (m n : SubscriberMetrics)
      → Accounts l (record m { receive_errors = add64 m.receive_errors 1 }) n
      → Accounts (failed ∷ l) m n
  unfolding add64
  Accounts-failed l m n a = record {
    messages_received = a.messages_received;
    validation_errors = a.validation_errors;
    receive_errors = omega (arith, a.receive_errors);
    unique_peers = a.unique_peers;
  }

  Accounts-invalid :
      (l : List Event) (m n : SubscriberMetrics)
      → Accounts l (count_validation_error m) n
      → Accounts (invalid ∷ l) m n
  unfolding add64 count_validation_error
  Accounts-invalid l m n a = record {
    messages_received = a.messages_received;
    validation_errors = omega (arith, a.validation_errors);
    receive_errors = a.receive_errors;
    unique_peers = a.unique_peers;
  }

  Accounts-valid :
      (l : List Event) (m n : SubscriberMetrics) (msg : Message) (now : ℕ)
      → Accounts l (count_received now (sub.peer_text msg.received_from) m) n
      → Accounts (valid msg ∷ l) m n
  unfolding add64 count_received
  Accounts-valid l m n msg now a = record {
    messages_received = omega (arith, a.messages_received);
    validation_errors = a.validation_errors;
    receive_errors = a.receive_errors;
    unique_peers = λ p. ground (
      arith,
      a.unique_peers p,
      lookup-insert (sub.peer_text msg.received_from) p now m.unique_peers,
    );
  }

  receive-invalid :
      (msg : Message) (m : SubscriberMetrics) (w : W) (e : ValidationError)
      → validate_message (some msg) ≡ some e
      → receive sub (ok (some msg)) m w ≡ (none, count_validation_error m)
  unfolding receive
  receive-invalid msg m w e p = rw (p, receive)

  receive-valid :
      (msg : Message) (m : SubscriberMetrics) (w : W)
      → validate_message (some msg) ≡ none
      → receive sub (ok (some msg)) m w
        ≡ (none, count_received (sub.now w) (sub.peer_text msg.received_from) m)
  unfolding receive
  receive-valid msg m w p = rw (p, receive)

  settle-done :
      (e : E) (m : SubscriberMetrics) (w : W)
      → sub.is_done w ≡ true
      → settle sub (some e) m w ≡ (Next.stop, m, w)
  unfolding settle
  settle-done e m w p = rw (p, settle)

  settle-failed :
      (e : E) (m : SubscriberMetrics) (w : W)
      → sub.is_done w ≡ false
      → settle sub (some e) m w
        ≡ (Next.continue, record m { receive_errors = add64 m.receive_errors 1 }, sub.sleep w)
  unfolding settle
  settle-failed e m w p = rw (p, settle)

  module _ (rounds : ℕ) where
    -- The rest of a round, after `receiveMessage`.
    after_settle : Next × SubscriberMetrics × W → SubscriberMetrics × W
    after_settle (next, m, w) =
        let rest = run sub rounds m w in elim next [ Next.stop ↦ (m, w) | Next.continue ↦ rest ]

    go_on : W → Option E × SubscriberMetrics → SubscriberMetrics × W
    go_on w (failure, m) = after_settle (settle sub failure m w)

    next_events : Result E (Option Message) → W → List Event
    next_events answer w =
        let after_error = events rounds (sub.sleep w) in
        let after_message = events rounds w in
        elim answer [
          | err e ↦ (if sub.is_done w then [] else failed ∷ after_error)
          | ok msg ↦ message_event msg ∷ after_message
        ]

    module _
        (ih : (m : SubscriberMetrics) (w : W)
          → Accounts (events rounds w) m (run sub rounds m w).0) where
      go_on-Accounts :
          (answer : Result E (Option Message)) (m : SubscriberMetrics) (w : W)
          → Accounts (next_events answer w) m (go_on w (receive sub answer m w)).0
      unfolding go_on after_settle next_events receive settle
      go_on-Accounts (err e) m w = elim (Bool-cases (sub.is_done w)) [
        | inl q ↦
            subst (λ r. Accounts (next_events (err e) w) m (after_settle r).0)
              (sym (settle-done e m w q)) (rw q (Accounts-none m))
        | inr q ↦
            subst (λ r. Accounts (next_events (err e) w) m (after_settle r).0)
              (sym (settle-failed e m w q))
              (rw q (
                Accounts-failed (events rounds (sub.sleep w)) m _
                  (ih (record m { receive_errors = add64 m.receive_errors 1 }) (sub.sleep w))))
      ]
      go_on-Accounts (ok none) m w =
          Accounts-invalid (events rounds w) m _ (ih (count_validation_error m) w)
      go_on-Accounts (ok (some msg)) m w = elim (Option-cases (validate_message (some msg))) [
        | inl q ↦
            subst (λ r. Accounts (next_events (ok (some msg)) w) m (go_on w r).0)
              (sym (receive-valid msg m w q))
              (rw (q, message_event)
                (Accounts-valid (events rounds w) m _ msg (sub.now w)
                  (ih (count_received (sub.now w) (sub.peer_text msg.received_from) m) w)))
        | inr (e, q) ↦
            subst (λ r. Accounts (next_events (ok (some msg)) w) m (go_on w r).0)
              (sym (receive-invalid msg m w e q))
              (rw (q, message_event)
                (Accounts-invalid (events rounds w) m _ (ih (count_validation_error m) w)))
      ]

      round-Accounts :
          (m : SubscriberMetrics) (w : W)
          → sub.is_done w ≡ false
          → Accounts (events (suc rounds) w) m (run sub (suc rounds) m w).0
      unfolding run events go_on after_settle next_events receive_message
      round-Accounts m w d = rw (d, run, events) (go_on-Accounts (sub.next w).0 m (sub.next w).1)

  -- After any number of rounds of the loop: each valid message counts as received, each invalid one
  -- as a validation error and each failed receive as a receive error (modulo 2^64), an error that
  -- the end of the context causes counts as none; and the unique peers are exactly the peers known
  -- before and the senders of the valid messages.
  pub run-Accounts :
      (rounds : ℕ) (m : SubscriberMetrics) (w : W)
      → Accounts (events rounds w) m (run sub rounds m w).0
  unfolding run events
  run-Accounts zero m w = Accounts-none m
  run-Accounts (suc rounds) m w = elim (Bool-cases (sub.is_done w)) [
    | inl d ↦ rw (d, run, events) (Accounts-none m)
    | inr d ↦ round-Accounts rounds (run-Accounts rounds) m w d
  ]
