-- ===== src/Main/Messages/Filling.antt =====
-- What `startSubscriberWithStore` of main.go puts into the table.
use Prim.Native.String.{len as str_len, slice, ◌++◌ as text◌++◌}
use gossip_pubsub.Base.{
  ℕ, zero, suc, ◌+◌, ◌%◌, ◌≤◌, ◌<◌, String, ◌≡◌, ◌≢◌, refl, sym, ap, subst, ◌∙◌, ◌⊎◌, inl, inr,
  false, Option, none, some, List, [], ◌∷◌, ◌++◌, length, length-append, ok, err, true,
  if◌then◌else◌, Result-cases, Option-cases, Bool-cases, arith,
}
use gossip_pubsub.Base.Words.{u64_mod, add64}
use gossip_pubsub.GoMap.{IsMap, insert}
use gossip_pubsub.GoMap.Laws.{insert-IsMap}
use gossip_pubsub.Subscriber.{
  Message, Subscription, SubscriberMetrics, HandlerError, stop, continue, new_subscriber,
  process_message_with_handler, handle, validate_message, count_received, count_validation_error,
}
use gossip_pubsub.Subscriber.Validation.{IsAcceptable, validate_message_iff}
use gossip_pubsub.Main.Messages.Sequence.{big_endian, decode_seqno-big_endian}
use gossip_pubsub.Main.Messages.{
  MessageEntry, MessageStore, new_message_store, decode_seqno, entry_key, Reader, beside,
  store_handler, store_entry, add_entry, after_message, store_loop, start_subscriber_with_store,
}

module _ {W E : Type 0} (sub : Subscription W E) (bytes_text : List ℕ → String) where
  -- The text of every sender has 8 bytes at least.
  abbrev pub LongPeers : Type 0
  LongPeers =
      (w : W) (msg : Message)
      → (sub.next w).0 ≡ ok (some msg)
      → 8 ≤ str_len (sub.peer_text msg.received_from)

  -- What a message leaves in the table, and the key that it leaves it under: the first 8 bytes of
  -- the sender's text, a dash and the text of the sequence number.
  abbrev pub received_entry : ℕ → Message → MessageEntry
  received_entry now msg = record {
    data_bytes = msg.data_bytes;
    timestamp = now;
    peer_id = sub.peer_text msg.received_from;
    seq_no = decode_seqno 8 msg.seqno 0;
  }

  abbrev pub received_key : Message → String
  received_key msg =
      text◌++◌ (slice (sub.peer_text msg.received_from) 0 8) (text◌++◌ "-" (bytes_text msg.seqno))

  -- Messages, each with the time of its entry.
  abbrev pub store_all : List (ℕ × Message) → MessageStore → MessageStore
  store_all [] store = store
  store_all ((now, msg) ∷ l) store =
      store_all l (insert (received_key msg) (received_entry now msg) store)

  -- Each is acceptable, and was returned by `Next` in some state, whose time after it is its time.
  abbrev pub AllReturned : List (ℕ × Message) → Type 0
  AllReturned [] = Unit
  AllReturned ((now, msg) ∷ l) =
      IsAcceptable (some msg)
      × ((w : W) × ((sub.next w).0 ≡ ok (some msg)) × (now ≡ sub.now (sub.next w).1))
      × AllReturned l

  call : SubscriberMetrics → Reader W → Option (HandlerError E) × SubscriberMetrics × Reader W
  call m r = process_message_with_handler (beside sub bytes_text) (store_handler sub bytes_text) m r

  -- A state that `taken` leads to.
  record Reached (m : SubscriberMetrics) (r : Reader W) (taken : List (ℕ × Message))
      (m' : SubscriberMetrics) (r' : Reader W) : Type 0 where
    calm : r'.crashed ≡ false
    stored : r'.store ≡ store_all taken r.store
    counted : m'.messages_received % u64_mod ≡ (m.messages_received + length taken) % u64_mod

  -- What one call of `Next` makes the reader take: an acceptable message, or none for one that is
  -- nil or not acceptable; `none` is an error of the call.
  unfoldable pub taken_once : W → Option (List (ℕ × Message))
  taken_once w = elim (sub.next w).0 [
    | err e ↦ none
    | ok none ↦ some []
    | ok (some msg) ↦ elim (validate_message (some msg)) [
      | none ↦ some ((sub.now (sub.next w).1, msg) ∷ [])
      | some bad ↦ some []
    ]
  ]

  -- The messages that so many rounds take, in the order in which `Next` returns them: after an error
  -- the loop ends if the context is done, and else sleeps.
  unfoldable pub taken_in : ℕ → W → List (ℕ × Message)
  unfolding taken_once
  taken_in zero w = []
  taken_in (suc rounds) w =
      let after = (sub.next w).1 in
      let slept = taken_in rounds (sub.sleep after) in
      let later = taken_in rounds after in
      if sub.is_done w then [] else elim (taken_once w) [
        | none ↦ if sub.is_done after then [] else slept
        | some l ↦ l ++ later
      ]

  -- One call fails and takes no message, or does not and takes what it got.
  record Outcome (m : SubscriberMetrics) (r : Reader W) : Type 0 where
    taken : List (ℕ × Message)
    acceptable : AllReturned taken
    reached : Reached m r taken (call m r).1 (call m r).2
    moved : (call m r).2.world ≡ (sub.next r.world).1
    answer :
        ((taken ≡ []) × (taken_once r.world ≡ none) × ((call m r).0 ≢ none))
        ⊎ ((taken_once r.world ≡ some taken) × ((call m r).0 ≡ none))

  handled : (m : SubscriberMetrics) (r : Reader W) → r.crashed ≡ false → LongPeers → Outcome m r
  unfolding call process_message_with_handler handle beside store_handler store_entry entry_key
      add_entry count_received count_validation_error add64 taken_once
  handled m r calm long = elim (Result-cases (sub.next r.world).0) [
    | inl (e, p) ↦ record {
      taken = [];
      acceptable = tt;
      reached = record { calm = ground arith; stored = ground arith; counted = ground arith };
      moved = ground arith;
      answer = inl (refl, ground arith, λ z. ground arith);
    }
    | inr (none, p) ↦ record {
      taken = [];
      acceptable = tt;
      reached = record { calm = ground arith; stored = ground arith; counted = ground arith };
      moved = ground arith;
      answer = inr (ground arith, ground arith);
    }
    | inr (some msg, p) ↦ elim (Option-cases (validate_message (some msg))) [
      | inr (bad, q) ↦ record {
        taken = [];
        acceptable = tt;
        reached = record { calm = ground arith; stored = ground arith; counted = ground arith };
        moved = ground arith;
        answer = inr (ground arith, ground arith);
      }
      | inl q ↦
          let enough = long r.world msg p in
          record {
            taken = (sub.now (sub.next r.world).1, msg) ∷ [];
            acceptable = ((validate_message_iff (some msg)).0 q, (r.world, p, refl), tt);
            reached = record { calm = ground arith; stored = ground arith; counted = ground arith };
            moved = ground arith;
            answer = inr (ground arith, ground arith);
          }
    ]
  ]

  -- How a calm round goes on: after a message, or after an error if the context is not done.
  after_message-none :
      (r : Reader W) → r.crashed ≡ false → after_message sub bytes_text none r ≡ some (continue, r)
  unfolding after_message
  after_message-none r calm = rw (calm, after_message)

  after_message-stop :
      (e : HandlerError E) (r : Reader W)
      → sub.is_done r.world ≡ true
      → after_message sub bytes_text (some e) r ≡ some (stop, r)
  unfolding after_message
  after_message-stop e r done = rw (done, after_message)

  after_message-sleep :
      (e : HandlerError E) (r : Reader W)
      → sub.is_done r.world ≡ false
      → after_message sub bytes_text (some e) r
        ≡ some (continue, record r { world = sub.sleep r.world })
  unfolding after_message
  after_message-sleep e r busy = rw (busy, after_message)

  store_all-append :
      (a b : List (ℕ × Message)) (store : MessageStore)
      → store_all (a ++ b) store ≡ store_all b (store_all a store)
  store_all-append [] b store = refl
  store_all-append ((now, msg) ∷ a) b store = store_all-append a b _

  AllReturned-append :
      (a b : List (ℕ × Message)) → AllReturned a → AllReturned b → AllReturned (a ++ b)
  AllReturned-append [] b h k = k
  AllReturned-append ((now, msg) ∷ a) b h k = (h.0, h.1, AllReturned-append a b h.2 k)

  store_all-IsMap :
      (l : List (ℕ × Message)) (store : MessageStore) → IsMap store → IsMap (store_all l store)
  store_all-IsMap [] store h = h
  store_all-IsMap ((now, msg) ∷ l) store h = store_all-IsMap l _ (insert-IsMap _ _ store h)

  -- What the loop returns, when it has taken these messages.
  pub record Filled (rounds : ℕ) (m : SubscriberMetrics) (r : Reader W) (taken : List (ℕ × Message))
      : Type 0 where
    pub metrics : SubscriberMetrics
    pub reader : Reader W
    pub returned : store_loop sub bytes_text rounds m r ≡ some (metrics, reader)
    pub acceptable : AllReturned taken
    pub stored : reader.store ≡ store_all taken r.store
    pub counted :
        metrics.messages_received % u64_mod ≡ (m.messages_received + length taken) % u64_mod

  Filled-none :
      (m : SubscriberMetrics) (r : Reader W) (rounds : ℕ)
      → store_loop sub bytes_text rounds m r ≡ some (m, r)
      → Filled rounds m r []
  Filled-none m r rounds p = record {
    metrics = m;
    reader = r;
    returned = p;
    acceptable = tt;
    stored = refl;
    counted = omega arith;
  }

  taken_in-done : (rounds : ℕ) (w : W) → sub.is_done w ≡ true → taken_in (suc rounds) w ≡ []
  unfolding taken_in
  taken_in-done rounds w done = rw (done, taken_in) refl

  module _ (rounds : ℕ) (w : W) (busy : sub.is_done w ≡ false) where
    taken_in-stop :
        taken_once w ≡ none → sub.is_done (sub.next w).1 ≡ true → taken_in (suc rounds) w ≡ []
    unfolding taken_in
    taken_in-stop empty over = rw (busy, empty, over, taken_in) refl

    taken_in-sleep :
        taken_once w ≡ none
        → sub.is_done (sub.next w).1 ≡ false
        → taken_in (suc rounds) w ≡ taken_in rounds (sub.sleep (sub.next w).1)
    unfolding taken_in
    taken_in-sleep empty on = rw (busy, empty, on, taken_in) refl

    taken_in-took :
        (l : List (ℕ × Message))
        → taken_once w ≡ some l
        → taken_in (suc rounds) w ≡ l ++ taken_in rounds (sub.next w).1
    unfolding taken_in
    taken_in-took l got = rw (busy, got, taken_in) refl

  -- A round that goes on with what `on` describes.
  Filled-on :
      (rounds : ℕ) (m m' : SubscriberMetrics) (r r' next : Reader W)
      (first later : List (ℕ × Message))
      → AllReturned first
      → Reached m r first m' r'
      → next.store ≡ r'.store
      → (on : Filled rounds m' next later)
      → store_loop sub bytes_text (suc rounds) m r ≡ some (on.metrics, on.reader)
      → Filled (suc rounds) m r (first ++ later)
  Filled-on rounds m m' r r' next first later acceptable reached kept on returned = record {
    metrics = on.metrics;
    reader = on.reader;
    returned = returned;
    acceptable = AllReturned-append first later acceptable on.acceptable;
    stored =
        on.stored
        ∙ ap (store_all later) (kept ∙ reached.stored)
        ∙ sym (store_all-append first later r.store);
    counted = omega (arith, on.counted, reached.counted, length-append first later);
  }

  store_loop-Filled :
      (rounds : ℕ) (m : SubscriberMetrics) (r : Reader W)
      → r.crashed ≡ false
      → LongPeers
      → Filled rounds m r (taken_in rounds r.world)
  unfolding store_loop call taken_in
  store_loop-Filled zero m r calm long = Filled-none m r zero refl
  store_loop-Filled (suc rounds) m r calm long =
      let o = handled m r calm long in
      let m' = (call m r).1 in
      let r' = (call m r).2 in
      let slept : Reader W = record r' { world = sub.sleep r'.world } in
      let on = store_loop-Filled rounds m' r' o.reached.calm long in
      let later = store_loop-Filled rounds m' slept o.reached.calm long in
      elim (Bool-cases (sub.is_done r.world)) [
        | inl done ↦
            subst (Filled (suc rounds) m r) (sym (taken_in-done rounds r.world done))
              (Filled-none m r (suc rounds) (rw (done, store_loop)))
        | inr busy ↦ elim o.answer [
          | inr (got, fine) ↦
              let ret =
                ap (λ a. after_message sub bytes_text a r') fine
                ∙ after_message-none r' o.reached.calm in
              subst (Filled (suc rounds) m r)
                (ap (λ w. o.taken ++ taken_in rounds w) o.moved
                  ∙ sym (taken_in-took rounds r.world busy o.taken got))
                (Filled-on rounds m m' r r' r' o.taken (taken_in rounds r'.world) o.acceptable
                  o.reached refl on (rw (busy, ret, store_loop) on.returned))
          | inl (empty, got, fails) ↦ elim (Option-cases (call m r).0) [
            | inl fine ↦ absurd (fails fine)
            | inr (e, failed) ↦ elim (Bool-cases (sub.is_done r'.world)) [
              | inl over ↦
                  let ret =
                    ap (λ a. after_message sub bytes_text a r') failed
                    ∙ after_message-stop e r' over in
                  let reached = subst (λ l. Reached m r l m' r') empty o.reached in
                  subst (Filled (suc rounds) m r)
                    (sym
                      (taken_in-stop rounds r.world busy got (ap sub.is_done (sym o.moved) ∙ over)))
                    (record {
                      metrics = m';
                      reader = r';
                      returned = rw (busy, ret, store_loop);
                      acceptable = tt;
                      stored = reached.stored;
                      counted = reached.counted;
                    })
              | inr goes_on ↦
                  let ret =
                    ap (λ a. after_message sub bytes_text a r') failed
                    ∙ after_message-sleep e r' goes_on in
                  subst (Filled (suc rounds) m r)
                    (ap (λ w. taken_in rounds (sub.sleep w)) o.moved
                      ∙ sym (
                          taken_in-sleep rounds r.world busy got
                            (ap sub.is_done (sym o.moved) ∙ goes_on)))
                    (Filled-on rounds m m' r r' slept [] (taken_in rounds slept.world) tt
                      (subst (λ l. Reached m r l m' r') empty o.reached) refl later
                      (rw (busy, ret, store_loop) later.returned))
            ]
          ]
        ]
      ]

  -- If the text of every sender has 8 bytes at least, any number of rounds of the subscriber runs
  -- without a panic. Its table is then that of the acceptable messages that the rounds got from
  -- `Next`, as many as the metrics count as received (modulo 2^64), put in one after the other: each
  -- with its data, its sender, its time and its decoded number under a key of the sender's first 8
  -- bytes and the text of its number. No key stands twice, and the 8 bytes of a uint64, the highest
  -- first, are decoded to it.
  pub start_subscriber_with_store-Filled :
      (rounds : ℕ) (w : W)
      → LongPeers
      → (f : Filled rounds new_subscriber
          (record { world = w; store = new_message_store; crashed = false })
          (taken_in rounds w))
        × (start_subscriber_with_store sub bytes_text rounds w ≡ some (f.metrics, f.reader))
        × (f.metrics.messages_received % u64_mod ≡ length (taken_in rounds w) % u64_mod)
        × IsMap f.reader.store
        × ((n : ℕ) → n < u64_mod → decode_seqno 8 (big_endian n) 0 ≡ n)
  unfolding start_subscriber_with_store new_subscriber
  start_subscriber_with_store-Filled rounds w long =
      let f =
        store_loop-Filled rounds new_subscriber
          (record { world = w; store = new_message_store; crashed = false }) refl long in
      (
        f,
        f.returned,
        omega (arith, f.counted),
        subst IsMap (sym f.stored) (store_all-IsMap (taken_in rounds w) [] tt),
        decode_seqno-big_endian,
      )
