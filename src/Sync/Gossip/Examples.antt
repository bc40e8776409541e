-- ===== src/Sync/Gossip/Examples.antt =====
-- Two of any number of nodes: the first counts and publishes, the second receives.
use gossip_pubsub.Base.{
  false, ℕ, zero, suc, ◌+◌, ◌≤◌, ◌<◌, ◌%◌, String, ◌≡◌, ◌≢◌, refl, sym, subst, ap, ◌∙◌, true, none,
  some, List, [], ◌∷◌, ◌++◌, ok, err, Result, inl, eqb, if◌then◌else◌, ◌&&◌, arith, ◌==◌, eq_iff,
}
use gossip_pubsub.Base.Words.{u64_mod}
use gossip_pubsub.GoMap.{GoMap, lookup, insert, for_range}
use gossip_pubsub.Clock
use gossip_pubsub.Clock.{copy_entry}
use gossip_pubsub.Counter
use gossip_pubsub.Counter.{Counter}
use gossip_pubsub.Crdt.{Crdt, lww_set, counter}
use gossip_pubsub.OpHeap
use gossip_pubsub.MemStore
use gossip_pubsub.MemStore.{new_mem_store, export_object, export_crdt, append_op}
use gossip_pubsub.MemStore.Counts.{count_of}
use gossip_pubsub.Engine.{
  new_engine_mem_only, get_all_crdts, get_counter, apply_merged_crdt, counter_inc,
  validate_counter_input,
}
use gossip_pubsub.Engine.Runs.{Call, call, increment}
use gossip_pubsub.Engine.Counted.{count_in, HasCounts}
use gossip_pubsub.Sync.{
  Environment, Message, SyncMode, mode_both, encode_crdt, decode_crdt, decode_typed, sync_message,
  apply_message, accept_message, receive_crdt_message,
}
use gossip_pubsub.Sync.Gossip.{
  Increment, accepted, made, total, System, update, FromNetwork, submit, publish, receive,
  new_system, Reach, start, later,
}
use gossip_pubsub.Sync.Gossip.Carried.{KeepsCounts}
use gossip_pubsub.Sync.Gossip.Bounded.{get_counter-le-total}
use gossip_pubsub.Sync.Gossip.Exact.{AreDistinct}
use gossip_pubsub.Sync.Gossip.Heard.{HoldsSet, receive_all, Receives}
use gossip_pubsub.Sync.Gossip.Converged.{receive_all-total}
use gossip_pubsub.Sync.Received.{Arrives}
use gossip_pubsub.Sync.Exchange.{ReadsBack}

-- Ids of eight letters and more.
letters : ℕ → String
letters zero = String.[]
letters (suc n) = String.◌∷◌ "a" (letters n)

size : String → ℕ
size String.[] = 0
size (String.◌∷◌ c s) = size s + 1

size-letters : (n : ℕ) → size (letters n) ≡ n
unfolding size letters
size-letters zero = refl
size-letters (suc n) = omega (arith, size-letters n)

abbrev ids : ℕ → String
ids n = letters (n + 8)

distinct : AreDistinct ids
distinct a b e = omega (arith, ap size e, size-letters (a + 8), size-letters (b + 8))

abbrev hits : GoMap ℕ → Counter
hits counts = record { key = "k"; counters = counts; timestamp = ("aaaaaaaa", 1) ∷ [] }

abbrev ten : GoMap ℕ
ten = ("aaaaaaaa", 10) ∷ []

-- Only the counts of ten of the first node marshal.
abbrev write_counts : GoMap ℕ → Result String String
write_counts ((id, n) ∷ []) = if id == "aaaaaaaa" && eqb n 10 then ok "ten" else err "unknown"
write_counts m = err "unknown"

abbrev write : Crdt → Result String String
write (counter c) = write_counts c.counters
write (lww_set s) = err "unknown"

abbrev message : Message
message = record {
  kind = "sync";
  node_id = "aaaaaaaa";
  key = "all-crdts";
  operation = none;
  sync_data = some (("k", "ten") ∷ []);
  timestamp = 7;
}

abbrev scripted : Environment ℕ String
scripted = record {
  marshal_wrapper = λ name c. write c;
  unmarshal_wrapper = λ raw. ok ("counter", raw);
  unmarshal_counter = λ raw. ok (hits ten);
  unmarshal_set = λ raw. err "not a set";
  marshal_message = λ msg. ok "message";
  unmarshal_message = λ raw. ok message;
  publish = λ raw w. (none, w);
  next = λ w. (if eqb w 0 then err "deadline" else ok "message", w);
  timed_out = λ w. true;
  now = λ w. 7;
  decimal = λ n. "7";
  nil_map = λ w key. false;
}

write_ten : (m : GoMap ℕ) (raw : String) → write_counts m ≡ ok raw → m ≡ ten
write_ten [] raw e = cc
write_ten ((id, n) ∷ []) raw e = ground (arith, eq_iff id "aaaaaaaa")
write_ten ((id, n) ∷ (f ∷ m)) raw e = cc

scripted-KeepsCounts : KeepsCounts scripted
unfolding encode_crdt decode_crdt decode_typed lookup
scripted-KeepsCounts = record { reads = reads }
  where
    reads :
        (c d : Crdt) (raw : String)
        → HasCounts (some c)
        → encode_crdt scripted c ≡ ok raw
        → decode_crdt scripted raw ≡ some d
        → HasCounts (some d) × ((p : String) → count_in p (some d) ≡ count_in p (some c))
    reads (lww_set s) d raw has p q = cc
    reads (counter c) d raw has p q =
        let same = write_ten c.counters raw p in
        let it : counter (hits ten) ≡ d = ground arith in
        rw (← it) (rw same ((refl, tt), λ x. refl))

abbrev ten_more : Call
ten_more = increment 1 "aaaaaaaa" "k" 10 []

abbrev modes : ℕ → SyncMode
modes n = mode_both

abbrev at_start : System
at_start = new_system scripted 1000 ids modes

abbrev counted : System
counted = record at_start {
  nodes =
      update at_start.nodes 0
        (record (at_start.nodes 0) { engine = (call ten_more (at_start.nodes 0).engine).1 });
}

abbrev published : System
published = record counted { network = sync_message scripted (counted.nodes 0) 0 ∷ [] }

abbrev received : System
received = record published {
  nodes = update published.nodes 1 (receive_crdt_message scripted (published.nodes 1) 1).1;
}

abbrev history : List Increment
history = accepted ten_more (call ten_more (at_start.nodes 0).engine).0 ++ []

message_runs : sync_message scripted (counted.nodes 0) 0 ≡ message
unfolding letters sync_message get_all_crdts MemStore.get_all_crdts export_object export_crdt
    for_range copy_entry insert encode_crdt call counter_inc validate_counter_input append_op
    new_engine_mem_only new_mem_store lookup Clock.increment OpHeap.append OpHeap.new_op_heap
    OpHeap.approx_size Counter.increment_with_timestamp Counter.new_counter
message_runs = refl

arrives : FromNetwork scripted published.network 1
arrives raw msg p q = inl (ground (arith, message_runs))

published-Reach : Reach scripted 1000 ids modes published history
unfolding letters
published-Reach = later (later start (submit 0 ten_more refl)) (publish 0 0)

received-Reach : Reach scripted 1000 ids modes received history
received-Reach = later published-Reach (receive 1 1 arrives)

received_runs :
    (lookup "k" (received.nodes 1).engine.mem.objects ≡ some (counter (hits ten)))
    × (get_counter "k" (received.nodes 1).engine ≡ some 10)
    × (total "k" history ≡ 10)
unfolding letters receive_crdt_message accept_message apply_message sync_message get_all_crdts
    MemStore.get_all_crdts export_object export_crdt for_range copy_entry insert encode_crdt
    decode_crdt decode_typed apply_merged_crdt call counter_inc validate_counter_input append_op
    new_engine_mem_only new_mem_store lookup Clock.increment OpHeap.append OpHeap.new_op_heap
    OpHeap.approx_size Counter.increment_with_timestamp Counter.new_counter get_counter
    MemStore.get_counter_value Counter.value total
received_runs = (refl, refl, refl)

get_counter-le-total_example : 10 ≤ total "k" history
get_counter-le-total_example =
    get_counter-le-total scripted scripted-KeepsCounts 1000 ids modes received history 1 "k" 10
      received-Reach received_runs.1

abbrev only : Increment
only = record { node_id = "aaaaaaaa"; key = "k"; delta = 10 }

history_runs : history ≡ only ∷ []
unfolding call counter_inc validate_counter_input append_op new_engine_mem_only new_mem_store lookup
history_runs = refl

made_once : (p : String) → made p "k" history ≡ (if "aaaaaaaa" == p then 10 else 0)
unfolding made
made_once p = ap (made p "k") history_runs ∙ ground arith

fits : (m : ℕ) → made (ids m) "k" history < u64_mod
fits m = ground (arith, made_once (ids m))

first_id : ids 0 ≡ "aaaaaaaa"
unfolding letters
first_id = refl

first_only : (m : ℕ) → made (ids m) "k" history ≢ 0 → 0 ≡ m
first_only m ne =
    distinct 0 m (first_id ∙ ground (arith, made_once (ids m), eq_iff "aaaaaaaa" (ids m)))

first-Arrives : Arrives scripted (published.nodes 1) 1 (sync_message scripted (published.nodes 0) 0)
unfolding sync_message letters
first-Arrives = record {
  raw = "message";
  received = refl;
  parsed = ap ok (sym message_runs);
  foreign = λ e. ground (arith, eq_iff "aaaaaaaa" "aaaaaaaaa");
  long_id = omega arith;
}

heard :
    (m : ℕ)
    → m ≢ 1
    → made (ids m) "k" history ≢ 0
    → (w : ℕ) × Receives scripted
        (published.nodes 1)
        (1 ∷ [])
        (sync_message scripted (published.nodes m) w)
heard m other some_made = (
  0,
  inl (
      subst
        (λ k. Arrives scripted (published.nodes 1) 1 (sync_message scripted (published.nodes k) 0))
        (first_only m some_made) first-Arrives),
)

held :
    (m : ℕ) (x : Counter)
    → lookup "k" (published.nodes m).engine.mem.objects ≡ some (counter x)
    → x ≡ hits ten
unfolding call counter_inc validate_counter_input append_op new_engine_mem_only new_mem_store lookup
    letters insert for_range Clock.increment OpHeap.append OpHeap.new_op_heap OpHeap.approx_size
    Counter.increment_with_timestamp Counter.new_counter
held zero x e = ground arith
held (suc m) x e = ground arith

readable :
    (m : ℕ) (x : Counter)
    → lookup "k" (published.nodes m).engine.mem.objects ≡ some (counter x)
    → ReadsBack scripted (export_crdt "k" (counter x))
unfolding encode_crdt decode_crdt decode_typed export_crdt for_range copy_entry insert lookup
readable m x e = rw (held m x e) (record { raw = "ten"; marshals = refl; unmarshals = refl })

receive_all-total_example :
    count_of (get_counter "k" (receive_all scripted (1 ∷ []) (published.nodes 1)).engine)
    ≡ total "k" history % u64_mod
receive_all-total_example =
    receive_all-total scripted scripted-KeepsCounts ids distinct 1000 modes published history 1 "k"
      (1 ∷ []) published-Reach fits (arrives, tt) heard readable
      (λ set. subst HoldsSet received_runs.0 set)
