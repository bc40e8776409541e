-- ===== src/Sync/Exchange/Examples.antt =====
-- Two nodes that exchange their state in a scripted environment, and the theorems there.
use gossip_pubsub.Base.{
  false, ℕ, String, ◌≡◌, refl, true, none, some, [], ◌∷◌, ◌==◌, eq_iff, inr, if◌then◌else◌, ok, err,
  arith,
}
use gossip_pubsub.GoMap.{GoMap, lookup, insert, for_range}
use gossip_pubsub.Clock
use gossip_pubsub.Clock.{VectorClock, copy_entry, extract_node_id}
use gossip_pubsub.LwwSet
use gossip_pubsub.LwwSet.{LwwSet, contains}
use gossip_pubsub.LwwSet.Agreement.{SameSet, SameSet-refl}
use gossip_pubsub.Clock.Swapped.{Leads}
use gossip_pubsub.MemStore.Export.{copied_set, copied_counter}
use gossip_pubsub.Counter
use gossip_pubsub.Counter.{Counter, value}
use gossip_pubsub.Crdt
use gossip_pubsub.Crdt.{Crdt, lww_set, counter}
use gossip_pubsub.OpHeap
use gossip_pubsub.MemStore
use gossip_pubsub.MemStore.{export_object, append_op, new_mem_store, export_crdt}
use gossip_pubsub.MemStore.Validity.{AllValid}
use gossip_pubsub.Engine.{
  Engine, new_engine_mem_only, validate_input, validate_counter_input, get_counter, get_all_crdts,
  lww_add, counter_inc,
}
use gossip_pubsub.Engine.Runs.{Call, call, run, run_new}
use gossip_pubsub.Sync.{
  Environment, Node, mode_both, encode_crdt, decode_crdt, decode_typed, sync_message, apply_message,
  merge_remote, apply_copies, apply_crdt_sync,
}
use gossip_pubsub.Sync.Overlap.{apply_copies-apply_crdt_sync}
use gossip_pubsub.Sync.Exchange.{ReadsBack, SetReadsBack, counters_agree, sets_agree}

clock : String → VectorClock
clock id = (id, 1) ∷ []

abbrev hits : String → ℕ → Counter
hits id n = record { key = "k"; counters = (id, n) ∷ []; timestamp = (id, 1) ∷ [] }

abbrev users : String → LwwSet
users id = record {
  key = "k";
  adds = ("x", (id, 1) ∷ []) ∷ [];
  removes = [];
  timestamp = (id, 1) ∷ [];
}

abbrev written_by : GoMap ℕ → String
written_by [] = ""
written_by ((id, n) ∷ ts) = id

-- The raw text of an object is the name of its node; all objects are of the type `name`.
abbrev scripted : String → Environment ℕ String
scripted name = record {
  marshal_wrapper = λ name c. ok (written_by (Crdt.get_timestamp c));
  unmarshal_wrapper = λ raw. ok (name, raw);
  unmarshal_counter = λ raw. if raw == "a" then ok (hits "a" 10) else ok (hits "b" 5);
  unmarshal_set = λ raw. if raw == "a" then ok (users "a") else ok (users "b");
  marshal_message = λ msg. ok "message";
  unmarshal_message = λ raw. err "no message";
  publish = λ raw w. (none, w);
  next = λ w. (err "deadline", w);
  timed_out = λ w. true;
  now = λ w. 7;
  decimal = λ n. "5";
  nil_map = λ w key. false;
}

abbrev counting : String → ℕ → Engine
counting id n = run (Call.increment 1 id "k" n [] ∷ []) (new_engine_mem_only 1000)

abbrev holding : String → Engine
holding id = run (Call.add 1 id "k" "x" [] ∷ []) (new_engine_mem_only 1000)

abbrev node : String → Engine → Node
node id engine = record { node_id = id; engine = engine; msg_store = []; mode = mode_both }

counting_valid : (id : String) (n : ℕ) → AllValid (counting id n).mem.objects
counting_valid id n = (run_new 1000 (Call.increment 1 id "k" n [] ∷ []) (tt, tt)).0.objects

holding_valid : (id : String) → AllValid (holding id).mem.objects
holding_valid id = (run_new 1000 (Call.add 1 id "k" "x" [] ∷ []) (tt, tt)).0.objects

counting_runs :
    (lookup "k" (counting "a" 10).mem.objects ≡ some (counter (hits "a" 10)))
    × (lookup "k" (counting "b" 5).mem.objects ≡ some (counter (hits "b" 5)))
unfolding call counter_inc validate_counter_input append_op new_engine_mem_only new_mem_store lookup
    insert for_range Clock.increment OpHeap.append OpHeap.new_op_heap OpHeap.approx_size
    Counter.increment_with_timestamp Counter.new_counter
counting_runs = (refl, refl)

holding_runs :
    (lookup "k" (holding "a").mem.objects ≡ some (lww_set (users "a")))
    × (lookup "k" (holding "b").mem.objects ≡ some (lww_set (users "b")))
unfolding call lww_add validate_input append_op new_engine_mem_only new_mem_store lookup insert
    for_range Clock.increment OpHeap.append OpHeap.new_op_heap OpHeap.approx_size LwwSet.new_lww_set
    Clock.merge
holding_runs = (refl, refl)

hits-ReadsBack :
    ReadsBack (scripted "counter") (export_crdt "k" (counter (hits "a" 10)))
    × ReadsBack (scripted "counter") (export_crdt "k" (counter (hits "b" 5)))
unfolding encode_crdt decode_crdt decode_typed export_crdt for_range copy_entry insert
    Crdt.get_timestamp
hits-ReadsBack = (
  record { raw = "a"; marshals = refl; unmarshals = refl },
  record { raw = "b"; marshals = refl; unmarshals = refl },
)

users-SameSet : (id : String) → SameSet (copied_set "k" (users id)) (users id)
unfolding lookup for_range copy_entry insert
users-SameSet id = SameSet-refl (users id)

users-ReadsBack :
    SetReadsBack (scripted "lwwset") "k" (users "a")
    × SetReadsBack (scripted "lwwset") "k" (users "b")
unfolding encode_crdt decode_crdt decode_typed export_crdt for_range copy_entry insert
    Crdt.get_timestamp
users-ReadsBack = (
  record {
    raw = "a";
    copy = users "a";
    marshals = refl;
    unmarshals = refl;
    key = refl;
    same = users-SameSet "a";
    valid = (holding_valid "a").valid "k" (lww_set (users "a")) holding_runs.0;
  },
  record {
    raw = "b";
    copy = users "b";
    marshals = refl;
    unmarshals = refl;
    key = refl;
    same = users-SameSet "b";
    valid = (holding_valid "b").valid "k" (lww_set (users "b")) holding_runs.1;
  },
)

alone : (n : String) → Leads n ((n, 1) ∷ [])
unfolding lookup
alone n = record {
  count = 1;
  found = ground (arith, eq_iff n n);
  positive = omega arith;
  largest = λ j z e ne. ground (arith, eq_iff n j);
}

counters_agree_example :
    (get_counter "k" (
        apply_message
          (scripted "counter")
          (sync_message (scripted "counter") (node "a" (counting "a" 10)) 0)
          (counting "b" 5))
      ≡ some (value (Counter.merge_with (hits "a" 10) (hits "b" 5))))
    × (get_counter "k" (
          apply_message
            (scripted "counter")
            (sync_message (scripted "counter") (node "b" (counting "b" 5)) 0)
            (counting "a" 10))
        ≡ some (value (Counter.merge_with (hits "a" 10) (hits "b" 5))))
counters_agree_example =
    counters_agree (scripted "counter") (node "a" (counting "a" 10)) (node "b" (counting "b" 5)) 0 0
      "k" (hits "a" 10) (hits "b" 5) (counting_valid "a" 10) (counting_valid "b" 5) counting_runs.0
      counting_runs.1 hits-ReadsBack.0 hits-ReadsBack.1

sets_agree_example :
    (s : LwwSet) × (t : LwwSet) × (lookup "k"
        (apply_message
          (scripted "lwwset")
          (sync_message (scripted "lwwset") (node "b" (holding "b")) 0)
          (holding "a")).mem.objects
      ≡ some (lww_set s))
    × (lookup "k"
          (apply_message
            (scripted "lwwset")
            (sync_message (scripted "lwwset") (node "a" (holding "a")) 0)
            (holding "b")).mem.objects
        ≡ some (lww_set t))
    × (contains "x" s ≡ contains "x" t)
unfolding lookup for_range extract_node_id
sets_agree_example =
    sets_agree (scripted "lwwset") (node "a" (holding "a")) (node "b" (holding "b")) 0 0 "k" "x"
      (users "a") (users "b") (holding_valid "a") (holding_valid "b") holding_runs.0 holding_runs.1
      users-ReadsBack.0 users-ReadsBack.1
      (inr (inr ("a", "b", alone "a", alone "b", λ e. ground (arith, eq_iff "a" "b")))) tt

abbrev from_b : GoMap String
from_b = ("k", "b") ∷ []

-- The publisher's goroutine adds one to the counter of "a" in between.
abbrev increased : Engine
increased = run (Call.increment 2 "a" "k" 1 [] ∷ []) (counting "a" 10)

apply_copies-apply_crdt_sync_example :
    (lookup "k"
        (apply_copies
          (scripted "counter")
          (get_all_crdts (counting "a" 10))
          from_b
          increased).mem.objects
      ≡ lookup "k" (apply_crdt_sync (scripted "counter") from_b (counting "a" 10)).mem.objects)
    × (get_counter "k"
          (apply_copies (scripted "counter") (get_all_crdts (counting "a" 10)) from_b increased)
        ≡ get_counter "k" (apply_crdt_sync (scripted "counter") from_b (counting "a" 10)))
unfolding lookup call counter_inc validate_counter_input append_op new_engine_mem_only new_mem_store
    insert for_range Clock.increment OpHeap.append OpHeap.new_op_heap OpHeap.approx_size
    Counter.increment_with_timestamp Counter.new_counter get_all_crdts decode_crdt decode_typed
    merge_remote export_crdt copy_entry MemStore.get_all_crdts Crdt.merge Crdt.counter_merge
    export_object
apply_copies-apply_crdt_sync_example =
    apply_copies-apply_crdt_sync (scripted "counter") (counting "a" 10) increased from_b "k" "b"
      (counter (hits "b" 5))
      (counter (Counter.merge_with (copied_counter "k" (hits "a" 10)) (hits "b" 5))) (refl, tt) refl
      refl refl
