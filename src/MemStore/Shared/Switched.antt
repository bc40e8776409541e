-- ===== src/MemStore/Shared/Switched.antt =====
-- The `switch` of `AppendOp` of CRDT/MemoryStore.go, on clocks at addresses and as values.
use gossip_pubsub.Base.{◌≡◌, refl, sym, ap, ◌∙◌, Bool, true, false, Option, none, some, arith}
use gossip_pubsub.GoMap.{GoMap, lookup, insert}
use gossip_pubsub.GoMap.Values.{map_option, map_values, lookup-map_values, map_values-insert}
use gossip_pubsub.LwwSet.{new_lww_set}
use gossip_pubsub.Counter.{Counter, new_counter}
use gossip_pubsub.Crdt.{Crdt, lww_set, counter}
use gossip_pubsub.OpHeap.{OpKind, op_add, op_remove, op_counter_inc, unknown}
use gossip_pubsub.MemStore.{
  apply_set_op, apply_counter_op, apply_op, apply_to_set, apply_to_counter,
}
use gossip_pubsub.MemStore.Reads.{
  to_set-none, to_set-set, to_set-counter, to_counter-none, to_counter-counter, to_counter-set,
}
use gossip_pubsub.MemStore.Shared.{
  Memory, SharedOp, SharedSet, SharedCrdt, shared_set, own_counter, read, op_value, set_value,
  crdt_value, objects_value, share_set_op, new_shared_set, stored_set, stored_counter, share_to_set,
  share_to_counter, share_op,
}
use gossip_pubsub.MemStore.Shared.Views.{CrdtBelow, ObjectsBelow, ClockBelow, Extends, objects_same}
use gossip_pubsub.MemStore.Shared.Appended.{
  ObjectsBelow-mono, ObjectsBelow-insert, OptionBelow, lookup-Below, share_set_op-SetStored,
}

-- The switch: it reads as `v` of the value model, and the addresses are in use.
abbrev pub Switched : Option (GoMap Crdt) → Memory → Option (GoMap SharedCrdt × Memory) → Type 0
Switched v m none = v ≡ none
Switched v m (some (o, m')) =
    Extends m m' × (v ≡ some (objects_value m'.cells o)) × ObjectsBelow m'.next o

module _ (op : SharedOp) (m : Memory) (timed : ClockBelow m.next op.ts) where
  looked :
      (o : GoMap SharedCrdt) (c : Option SharedCrdt)
      → lookup op.key o ≡ c
      → lookup op.key (objects_value m.cells o) ≡ map_option (crdt_value m.cells) c
  looked o c q =
      lookup-map_values (crdt_value m.cells) op.key o ∙ ap (map_option (crdt_value m.cells)) q

  stored_set-Switched :
      (v : Option (GoMap Crdt)) (is_add : Bool) (set : SharedSet) (created : GoMap SharedCrdt)
      → v
        ≡ some (
            insert op.key
              (lww_set (
                apply_set_op
                  (set_value m.cells set)
                  op.node_id
                  op.element
                  is_add
                  (read m.cells op.ts)))
              (objects_value m.cells created))
      → CrdtBelow m.next (shared_set set)
      → ObjectsBelow m.next created
      → Switched v m (stored_set op is_add set created m)
  stored_set-Switched v is_add set created q below all =
      let r = share_set_op set op.node_id op.element is_add op.ts m in
      let st = share_set_op-SetStored set op.node_id op.element is_add op.ts m below timed in
      (
        st.extends,
        q
            ∙ ap some (
                cc (
                  st.value,
                  objects_same st.extends created all,
                  map_values-insert (crdt_value r.1.cells) op.key (shared_set r.0) created,
                )),
        ObjectsBelow-insert r.1.next op.key (shared_set r.0) created st.below
            (ObjectsBelow-mono m.next r.1.next created st.extends.more all),
      )

  share_to_set-Switched :
      (is_add : Bool) (o : GoMap SharedCrdt) (c : Option SharedCrdt)
      → lookup op.key o ≡ c
      → ObjectsBelow m.next o
      → OptionBelow m.next c
      → Switched
          (apply_to_set (op_value m.cells op) is_add (objects_value m.cells o))
          m
          (share_to_set op is_add o m)
  unfolding share_to_set OptionBelow map_values new_lww_set
  share_to_set-Switched is_add o none q h c =
      let new = new_shared_set op.key in
      rw (q, share_to_set)
        (stored_set-Switched (apply_to_set (op_value m.cells op) is_add (objects_value m.cells o))
          is_add new (insert op.key (shared_set new) o)
          (to_set-none (op_value m.cells op) (objects_value m.cells o) is_add (looked o none q)
            ∙ ap some (
                ap (insert op.key _)
                  (sym (map_values-insert (crdt_value m.cells) op.key (shared_set new) o))))
          (tt, tt) (ObjectsBelow-insert m.next op.key (shared_set new) o (tt, tt) h))
  share_to_set-Switched is_add o (some (shared_set s)) q h c =
      rw (q, share_to_set)
        (stored_set-Switched (apply_to_set (op_value m.cells op) is_add (objects_value m.cells o))
          is_add s o
          (to_set-set (op_value m.cells op) (objects_value m.cells o) is_add (set_value m.cells s)
            (looked o (some (shared_set s)) q))
          c h)
  share_to_set-Switched is_add o (some (own_counter k)) q h c =
      rw (q, share_to_set)
        (to_set-counter (op_value m.cells op) (objects_value m.cells o) is_add k
          (looked o (some (own_counter k)) q))

  stored_counter-Switched :
      (v : Option (GoMap Crdt)) (cnt : Counter) (created : GoMap SharedCrdt)
      → v
        ≡ some (
            insert op.key
              (counter (apply_counter_op cnt op.node_id op.value (read m.cells op.ts)))
              (objects_value m.cells created))
      → ObjectsBelow m.next created
      → Switched v m (stored_counter op cnt created m)
  stored_counter-Switched v cnt created q all =
      let after = apply_counter_op cnt op.node_id op.value (read m.cells op.ts) in
      (
        record { more = omega arith; same = λ a lt. refl },
        q
            ∙ ap some
                (sym (map_values-insert (crdt_value m.cells) op.key (own_counter after) created)),
        ObjectsBelow-insert m.next op.key (own_counter after) created tt all,
      )

  share_to_counter-Switched :
      (o : GoMap SharedCrdt) (c : Option SharedCrdt)
      → lookup op.key o ≡ c
      → ObjectsBelow m.next o
      → Switched
          (apply_to_counter (op_value m.cells op) (objects_value m.cells o))
          m
          (share_to_counter op o m)
  unfolding share_to_counter
  share_to_counter-Switched o none q h =
      let new = new_counter op.key in
      rw (q, share_to_counter)
        (stored_counter-Switched (apply_to_counter (op_value m.cells op) (objects_value m.cells o))
          new (insert op.key (own_counter new) o)
          (to_counter-none (op_value m.cells op) (objects_value m.cells o) (looked o none q)
            ∙ ap some (
                ap (insert op.key _)
                  (sym (map_values-insert (crdt_value m.cells) op.key (own_counter new) o))))
          (ObjectsBelow-insert m.next op.key (own_counter new) o tt h))
  share_to_counter-Switched o (some (own_counter k)) q h =
      rw (q, share_to_counter)
        (stored_counter-Switched (apply_to_counter (op_value m.cells op) (objects_value m.cells o))
          k o
          (to_counter-counter (op_value m.cells op) (objects_value m.cells o) k
            (looked o (some (own_counter k)) q))
          h)
  share_to_counter-Switched o (some (shared_set s)) q h =
      rw (q, share_to_counter)
        (to_counter-set (op_value m.cells op) (objects_value m.cells o) (set_value m.cells s)
          (looked o (some (shared_set s)) q))

  pub share_op-Switched :
      (kind : OpKind) (o : GoMap SharedCrdt)
      → ObjectsBelow m.next o
      → Switched
          (apply_op (op_value m.cells op) kind (objects_value m.cells o))
          m
          (share_op op kind o m)
  unfolding share_op apply_op
  share_op-Switched op_add o h =
      share_to_set-Switched true o (lookup op.key o) refl h (lookup-Below m.next op.key o h)
  share_op-Switched op_remove o h =
      share_to_set-Switched false o (lookup op.key o) refl h (lookup-Below m.next op.key o h)
  share_op-Switched op_counter_inc o h = share_to_counter-Switched o (lookup op.key o) refl h
  share_op-Switched (unknown k) o h = (record { more = omega arith; same = λ a lt. refl }, refl, h)
