-- ===== src/Sync/Exchange.antt =====
-- Two nodes of CRDTSync/implementation.go that publish their state to each other.
mod Examples
use gossip_pubsub.Base.{
  ℕ, String, ◌≡◌, refl, sym, ap, subst, ◌∙◌, Bool, Option, none, some, [], ◌==◌, eq_iff, eq_refl,
  if◌then◌else◌, Result, ok, err, arith,
}
use gossip_pubsub.GoMap.{GoMap, lookup, for_range, IsMap}
use gossip_pubsub.Clock.{VectorClock, copy_entry}
use gossip_pubsub.Clock.Merge.{lookup-copy, merge-copied}
use gossip_pubsub.LwwSet
use gossip_pubsub.LwwSet.{LwwSet, contains}
use gossip_pubsub.LwwSet.Validity.{IsValid}
use gossip_pubsub.LwwSet.Agreement.{
  SameClock, IsUntied, IsUntied-cong, SameSet, SameSet-symm, merge_agree,
}
use gossip_pubsub.Counter
use gossip_pubsub.Counter.{Counter, value}
use gossip_pubsub.Counter.Convergence
use gossip_pubsub.Counter.Convergence.{counters-merge_with, merge_with_value, merge_with-IsValid}
use gossip_pubsub.Counter.Total.{value_cong}
use gossip_pubsub.Crdt
use gossip_pubsub.Crdt.{Crdt, lww_set, counter}
use gossip_pubsub.MemStore
use gossip_pubsub.MemStore.{MemStore, export_crdt}
use gossip_pubsub.MemStore.Validity.{AllValid}
use gossip_pubsub.MemStore.Export.{
  exported, lookup-get_all_crdts, copied_set, copied_counter, export-set, export-counter,
  copied_set-IsValid, copied_counter-IsValid,
}
use gossip_pubsub.Engine.{Engine, get_all_crdts, get_counter}
use gossip_pubsub.Sync.{Environment, Node, encode_crdt, decode_crdt, sync_message, apply_message}
use gossip_pubsub.Sync.Applied.{received}
use gossip_pubsub.Sync.Delivered.{sync_message_delivers}

held_is_exported :
    (e : Engine) (j : String) (c : Crdt)
    → IsMap e.mem.objects
    → lookup j e.mem.objects ≡ some c
    → lookup j (get_all_crdts e) ≡ some (export_crdt j c)
unfolding get_all_crdts
held_is_exported e j c h p = lookup-get_all_crdts e.mem j h ∙ ap (exported j) p

pub received_counter :
    (j : String) (old : Option Crdt) (x y : Counter)
    → received (some (export_crdt j (counter y))) old (export_crdt j (counter x))
      ≡ some (counter (Counter.merge_with (copied_counter j y) (copied_counter j x)))
unfolding export_crdt Crdt.merge Crdt.counter_merge
received_counter j old x y = rw (eq_refl j, received)

pub received_set :
    (j : String) (old : Option Crdt) (x y : LwwSet)
    → y.key ≡ j
    → received (some (export_crdt j (lww_set x))) old (lww_set y)
      ≡ some (lww_set (LwwSet.merge_with (copied_set j x) y))
unfolding export_crdt Crdt.merge Crdt.set_merge
received_set j old x y same = rw (received, (eq_iff j y.key).1 (sym same)) refl

-- Reads as `GetCounter` and `GetSet` make them, on the object under the key.
abbrev pub counter_in : Option Crdt → Option ℕ
counter_in none = none
counter_in (some (lww_set s)) = none
counter_in (some (counter c)) = some (value c)

pub get_counter-lookup :
    (e : Engine) (j : String) → get_counter j e ≡ counter_in (lookup j e.mem.objects)
unfolding get_counter MemStore.get_counter_value
get_counter-lookup e j = ground arith

IsUntied-copied :
    (e : String) (a b : GoMap VectorClock)
    → IsMap a
    → IsMap b
    → IsUntied (lookup e a) (lookup e b)
    → IsUntied (lookup e (for_range copy_entry a [])) (lookup e (for_range copy_entry b []))
IsUntied-copied e a b ha hb h =
    subst (λ o. IsUntied o (lookup e (for_range copy_entry b []))) (sym (lookup-copy a e ha))
      (subst (IsUntied (lookup e a)) (sym (lookup-copy b e hb)) h)

-- Copies merge to the value to which the originals do.
merge-copied_counter :
    (j : String) (x y : Counter)
    → Counter.Convergence.IsValid x
    → Counter.Convergence.IsValid y
    → value (Counter.merge_with (copied_counter j y) (copied_counter j x))
      ≡ value (Counter.merge_with y x)
merge-copied_counter j x y v w =
    value_cong (Counter.merge_with (copied_counter j y) (copied_counter j x))
      (Counter.merge_with y x)
      (merge_with-IsValid (copied_counter j y) (copied_counter j x)).counters_map
      (merge_with-IsValid y x).counters_map
      (simp counters-merge_with (merge-copied y.counters x.counters w.counters_map v.counters_map))

module _ {W E : Type 0} (env : Environment W E) where
  -- The object marshals, and reads back as it is.
  pub record ReadsBack (c : Crdt) : Type 0 where
    pub raw : String
    pub marshals : encode_crdt env c ≡ ok raw
    pub unmarshals : decode_crdt env raw ≡ some c

  -- What the receiver `b` holds after the message of `a`, where both hold an object.
  delivered :
      (a : Node) (w : W) (b : Engine) (j : String) (x y : Crdt)
      → IsMap a.engine.mem.objects
      → IsMap b.mem.objects
      → lookup j a.engine.mem.objects ≡ some x
      → lookup j b.mem.objects ≡ some y
      → ReadsBack (export_crdt j x)
      → lookup j (apply_message env (sync_message env a w) b).mem.objects
        ≡ received (some (export_crdt j y)) (some y) (export_crdt j x)
  delivered a w b j x y ha hb p q back =
      sync_message_delivers env a w b j back.raw (export_crdt j x) (export_crdt j x)
        (held_is_exported a.engine j x ha p) back.marshals back.unmarshals
      ∙ ap (λ o. received o (lookup j b.mem.objects) (export_crdt j x))
          (held_is_exported b j y hb q)
      ∙ ap (λ o. received (some (export_crdt j y)) o (export_crdt j x)) q

  delivered_counter :
      (a : Node) (w : W) (b : Engine) (j : String) (x y : Counter)
      → IsMap a.engine.mem.objects
      → IsMap b.mem.objects
      → lookup j a.engine.mem.objects ≡ some (counter x)
      → lookup j b.mem.objects ≡ some (counter y)
      → ReadsBack (export_crdt j (counter x))
      → get_counter j (apply_message env (sync_message env a w) b)
        ≡ some (value (Counter.merge_with (copied_counter j y) (copied_counter j x)))
  delivered_counter a w b j x y ha hb p q back =
      get_counter-lookup (apply_message env (sync_message env a w) b) j
      ∙ ap counter_in (
          delivered a w b j (counter x) (counter y) ha hb p q back
          ∙ received_counter j (some (counter y)) x y)

  -- Two valid nodes that hold a counter under one key, whose copies read back from their messages,
  -- and that each apply the message that the other published before, read the same count: that of
  -- the merge of what they held.
  pub counters_agree :
      (a b : Node) (v w : W) (j : String) (x y : Counter)
      → AllValid a.engine.mem.objects
      → AllValid b.engine.mem.objects
      → lookup j a.engine.mem.objects ≡ some (counter x)
      → lookup j b.engine.mem.objects ≡ some (counter y)
      → ReadsBack (export_crdt j (counter x))
      → ReadsBack (export_crdt j (counter y))
      → (get_counter j (apply_message env (sync_message env a v) b.engine)
          ≡ some (value (Counter.merge_with x y)))
        × (get_counter j (apply_message env (sync_message env b w) a.engine)
            ≡ some (value (Counter.merge_with x y)))
  counters_agree a b v w j x y ha hb p q back_x back_y =
      let vx = ha.valid j (counter x) p in
      let vy = hb.valid j (counter y) q in
      (
        delivered_counter a v b.engine j x y ha.map hb.map p q back_x
            ∙ ap some (merge-copied_counter j x y vx vy ∙ (merge_with_value y x x vy vx vx).0),
        delivered_counter b w a.engine j y x hb.map ha.map q p back_y
            ∙ ap some (merge-copied_counter j y x vy vx),
      )

  -- The copy of a set marshals, and reads back as a valid set with the same clocks under the same
  -- key, whose entries may stand in another order.
  pub record SetReadsBack (j : String) (x : LwwSet) : Type 0 where
    pub raw : String
    pub copy : LwwSet
    pub marshals : encode_crdt env (export_crdt j (lww_set x)) ≡ ok raw
    pub unmarshals : decode_crdt env raw ≡ some (lww_set copy)
    pub key : copy.key ≡ j
    pub same : SameSet (copied_set j x) copy
    pub valid : IsValid copy

  delivered_set :
      (a : Node) (w : W) (b : Engine) (j : String) (x y : LwwSet)
      → IsMap a.engine.mem.objects
      → IsMap b.mem.objects
      → lookup j a.engine.mem.objects ≡ some (lww_set x)
      → lookup j b.mem.objects ≡ some (lww_set y)
      → (back : SetReadsBack j x)
      → lookup j (apply_message env (sync_message env a w) b).mem.objects
        ≡ some (lww_set (LwwSet.merge_with (copied_set j y) back.copy))
  delivered_set a w b j x y ha hb p q back =
      sync_message_delivers env a w b j back.raw (export_crdt j (lww_set x)) (lww_set back.copy)
        (held_is_exported a.engine j (lww_set x) ha p) back.marshals back.unmarshals
      ∙ ap (λ o. received o (lookup j b.mem.objects) (lww_set back.copy))
          (held_is_exported b j (lww_set y) hb q)
      ∙ received_set j (lookup j b.mem.objects) y back.copy back.key

  -- Two valid nodes that hold a set under one key, whose copies read back from their messages with the
  -- same clocks, in whatever order of the entries, and that each apply the message that the other
  -- published before, agree on an element whose adds are ordered, the same, or led each by one node,
  -- two different ones, and likewise its removes.
  pub sets_agree :
      (a b : Node) (v w : W) (j e : String) (x y : LwwSet)
      → AllValid a.engine.mem.objects
      → AllValid b.engine.mem.objects
      → lookup j a.engine.mem.objects ≡ some (lww_set x)
      → lookup j b.engine.mem.objects ≡ some (lww_set y)
      → SetReadsBack j x
      → SetReadsBack j y
      → IsUntied (lookup e x.adds) (lookup e y.adds)
      → IsUntied (lookup e x.removes) (lookup e y.removes)
      → (s : LwwSet) × (t : LwwSet) × (lookup j
            (apply_message env (sync_message env b w) a.engine).mem.objects
          ≡ some (lww_set s))
        × (lookup j (apply_message env (sync_message env a v) b.engine).mem.objects
            ≡ some (lww_set t))
        × (contains e s ≡ contains e t)
  sets_agree a b v w j e x y ha hb p q back_x back_y adds removes =
      let vx = ha.valid j (lww_set x) p in
      let vy = hb.valid j (lww_set y) q in
      (
        LwwSet.merge_with (copied_set j x) back_y.copy,
        LwwSet.merge_with (copied_set j y) back_x.copy,
        delivered_set b w a.engine j y x hb.map ha.map q p back_y,
        delivered_set a v b.engine j x y ha.map hb.map p q back_x,
        merge_agree (copied_set j x) back_y.copy back_x.copy (copied_set j y) e back_x.same
            (SameSet-symm (copied_set j y) back_y.copy back_y.same)
            (copied_set-IsValid j x vx, back_y.valid, back_x.valid, copied_set-IsValid j y vy)
            (IsUntied-cong (lookup e (copied_set j x).adds) (lookup e (copied_set j y).adds)
              (lookup e back_y.copy.adds) (back_y.same.adds e)
              (IsUntied-copied e x.adds y.adds vx.adds_map vy.adds_map adds))
            (IsUntied-cong (lookup e (copied_set j x).removes) (lookup e (copied_set j y).removes)
              (lookup e back_y.copy.removes) (back_y.same.removes e)
              (IsUntied-copied e x.removes y.removes vx.removes_map vy.removes_map removes)),
      )
