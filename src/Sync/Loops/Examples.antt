-- ===== src/Sync/Loops/Examples.antt =====
-- Runs of the goroutines of a node in a scripted environment, and the theorems there.
use Prim.Native.String.{len as str_len, ◌++◌ as text◌++◌}
use text.Mathlib.TextPositions.{len-append}
use gossip_pubsub.Base.{
  String, ◌≡◌, refl, subst, ◌≤◌, Bool, true, false, none, List, [], ◌∷◌, ok, arith,
}
use gossip_pubsub.GoMap.{for_range, lookup, insert}
use gossip_pubsub.OpHeap
use gossip_pubsub.MemStore.{new_mem_store}
use gossip_pubsub.Engine.{
  lww_add, counter_inc, validate_input, validate_counter_input, apply_merged_crdt,
  new_engine_mem_only,
}
use gossip_pubsub.Sync.{Environment, Message, mode_both}
use gossip_pubsub.Sync.Local.{publish_round}
use gossip_pubsub.Sync.Examples.{scripted, node, message_from}
use gossip_pubsub.Sync.Loops.{stopped, ticked, subscriber_loop}
use gossip_pubsub.Sync.Loops.Publishing.{successes, Published, publisher_loop-Published}
use gossip_pubsub.Sync.Loops.Receiving.{LongIds, Takes, subscriber_loop-Takes}

abbrev prefixed : Environment (List String) String
prefixed = record scripted {
  unmarshal_message = λ raw. ok (message_from (text◌++◌ "12D3KooW" raw));
}

abbrev is_empty : List String → Bool
is_empty [] = true
is_empty (id ∷ w) = false

abbrev same : List String → List String
same w = w

abbrev script : List String
script = "a" ∷ "node" ∷ "b" ∷ []

publisher_loop-Published_example :
    Published prefixed is_empty same (ticked ∷ ticked ∷ stopped ∷ []) 0 (node mode_both) script
publisher_loop-Published_example =
    publisher_loop-Published prefixed is_empty same (ticked ∷ ticked ∷ stopped ∷ []) 0
      (node mode_both) script (omega arith) (λ w key. refl)

long_ids : LongIds prefixed is_empty same "12D3KooWnode"
long_ids w raw msg p q foreign =
    let parsed : message_from (text◌++◌ "12D3KooW" raw) ≡ msg = ground arith in
    subst (λ (m : Message). 8 ≤ str_len m.node_id) parsed (omega (arith, len-append "12D3KooW" raw))

subscriber_loop-Takes_example : Takes prefixed is_empty same 5 (node mode_both) script
subscriber_loop-Takes_example =
    subscriber_loop-Takes prefixed is_empty same 5 (node mode_both) script long_ids

subscriber_runs :
    (subscriber_loop scripted is_empty same 5 (node mode_both) ("short" ∷ []) ≡ none)
    × (successes scripted is_empty same (ticked ∷ ticked ∷ stopped ∷ []) 0 (node mode_both) [] ≡ 2)
unfolding subscriber_loop publish_round lww_add counter_inc validate_input validate_counter_input
    apply_merged_crdt new_engine_mem_only new_mem_store OpHeap.append OpHeap.new_op_heap
    OpHeap.approx_size for_range lookup insert
subscriber_runs = (refl, refl)
