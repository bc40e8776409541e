-- ===== src/LwwSet/Convergence.antt =====
-- `LWWSet.Merge` of CRDT/crdt.go between replicas.
use gossip_pubsub.Base.{
  String, ◌≡◌, refl, ◌⊎◌, inl, inr, Bool, true, false, some, List, [], ◌∷◌, ◌==◌, eq_iff,
  Option-cases, Bool-cases, arith, ◌∙◌,
}
use gossip_pubsub.GoMap.{GoMap, lookup, insert}
use gossip_pubsub.GoMap.Laws.{lookup-insert}
use gossip_pubsub.Clock
use gossip_pubsub.Clock.{
  VectorClock, happens_after, happens_before, unordered, extract_node_id, resolve,
}
use gossip_pubsub.Clock.Comparing.{compare-opposite, compare_trans}
use gossip_pubsub.Clock.TieBreak.{resolve_cases}
use gossip_pubsub.Clock.Increment.{HasRoom}
use gossip_pubsub.LwwSet.{LwwSet, op_clock, apply_op, contains, merge_with}
use gossip_pubsub.LwwSet.Validity.{IsValid, merged, lookup-merge_elements, op_clock-happens_after}
use gossip_pubsub.LwwSet.Visible.{
  SetOp, run_ops, count_ops, RoomFor, run_ops-IsValid, RoomFor-HasRoom, after_op, after_op-IsValid,
  after_op-RoomFor,
}

resolve_self : (c : VectorClock) → resolve c c ≡ c
resolve_self c = ground (arith, resolve_cases c c)

-- Each entry of `a` is in `b` as it is or under a later clock.
pub record Extends (a b : GoMap VectorClock) : Type 0 where
  pub at :
      (e : String) (c : VectorClock)
      → lookup e a ≡ some c
      → (d : VectorClock) × (lookup e b ≡ some d) × ((c ≡ d) ⊎ (Clock.compare c d ≡ happens_before))

Extends-refl : (a : GoMap VectorClock) → Extends a a
Extends-refl a = record { at = λ e c p. (c, p, inl refl) }

-- A write of a clock later than what it replaces.
Extends-insert :
    (a b : GoMap VectorClock) (e : String) (ts : VectorClock)
    → ((d : VectorClock) → lookup e b ≡ some d → Clock.compare ts d ≡ happens_after)
    → Extends a b
    → Extends a (insert e ts b)
Extends-insert a b e ts later h = record { at = λ j c p. step j c (h.at j c p) }
  where
    step :
        (j : String) (c : VectorClock)
        → (d : VectorClock) × (lookup j b ≡ some d)
          × ((c ≡ d) ⊎ (Clock.compare c d ≡ happens_before))
        → (d : VectorClock) × (lookup j (insert e ts b) ≡ some d)
          × ((c ≡ d) ⊎ (Clock.compare c d ≡ happens_before))
    step j c (d, found, rel) = elim (Bool-cases (e == j)) [
      | inl same ↦
          let at_e : lookup e b ≡ some d = ground (arith, eq_iff e j) in
          let dts : Clock.compare d ts ≡ happens_before =
            ground (arith, later d at_e, compare-opposite ts d) in
          (
            ts,
            ground (arith, lookup-insert e j ts b),
            inr (elim rel [ inl q ↦ rw q dts | inr q ↦ compare_trans c d ts q dts ]),
          )
      | inr other ↦ (d, ground (arith, lookup-insert e j ts b), rel)
    ]

merged-Extends :
    (a b : GoMap VectorClock)
    → Extends a b
    → (e : String)
    → (merged (lookup e a) (lookup e b) ≡ lookup e b)
      × (merged (lookup e b) (lookup e a) ≡ lookup e b)
merged-Extends a b h e = elim (Option-cases (lookup e a)) [
  | inl p ↦ ground arith
  | inr (c, p) ↦ let (d, q, rel) = h.at e c p in ground (arith, resolve_cases c d, resolve_self d)
]

contains_ext :
    (j : String) (s o : LwwSet)
    → lookup j s.adds ≡ lookup j o.adds
    → lookup j s.removes ≡ lookup j o.removes
    → contains j s ≡ contains j o
unfolding contains
contains_ext j s o p q = ground arith

-- `o` holds everything that `s` holds, as it is or under a later clock.
pub record IsAhead (s o : LwwSet) : Type 0 where
  pub adds : Extends s.adds o.adds
  pub removes : Extends s.removes o.removes

IsAhead-apply_op :
    (n e : String) (is_add : Bool) (s o : LwwSet)
    → IsValid o
    → HasRoom n o.timestamp
    → IsAhead s o
    → IsAhead s (apply_op n e is_add o)
unfolding apply_op
IsAhead-apply_op n e true s o v room h = record {
  adds =
      Extends-insert s.adds o.adds e (op_clock n o)
        (λ d p. op_clock-happens_after n o v.timestamp_map room d (v.adds_below.at e d p).below)
        h.adds;
  removes = h.removes;
}
IsAhead-apply_op n e false s o v room h = record {
  adds = h.adds;
  removes =
      Extends-insert s.removes o.removes e (op_clock n o)
        (λ d p. op_clock-happens_after n o v.timestamp_map room d (v.removes_below.at e d p).below)
        h.removes;
}

-- After local operations a replica is ahead of every state that it was ahead of before them.
run_ops-IsAhead :
    (ops : List SetOp) (s o : LwwSet)
    → IsValid o
    → RoomFor (count_ops ops) o.timestamp
    → IsAhead s o
    → IsAhead s (run_ops ops o)
run_ops-IsAhead [] s o v r h = h
run_ops-IsAhead (op ∷ ops) s o v r h =
    let n = count_ops ops in
    run_ops-IsAhead ops s (after_op op n o v r) (after_op-IsValid op n o v r)
      (after_op-RoomFor op n o v r)
      (IsAhead-apply_op op.node_id op.element op.is_add s o v
        (RoomFor-HasRoom n o.timestamp op.node_id r) h)

-- Merging with a replica that is ahead yields what that replica shows, on either side.
merge_ahead :
    (s o : LwwSet) (j : String)
    → IsValid s
    → IsValid o
    → IsAhead s o
    → (contains j (merge_with s o) ≡ contains j o) × (contains j (merge_with o s) ≡ contains j o)
unfolding merge_with
merge_ahead s o j v w h = (
  contains_ext j (merge_with s o) o
      (lookup-merge_elements s.adds o.adds j v.adds_map w.adds_map
        ∙ (merged-Extends s.adds o.adds h.adds j).0)
      (lookup-merge_elements s.removes o.removes j v.removes_map w.removes_map
        ∙ (merged-Extends s.removes o.removes h.removes j).0),
  contains_ext j (merge_with o s) o
      (lookup-merge_elements o.adds s.adds j w.adds_map v.adds_map
        ∙ (merged-Extends s.adds o.adds h.adds j).1)
      (lookup-merge_elements o.removes s.removes j w.removes_map v.removes_map
        ∙ (merged-Extends s.removes o.removes h.removes j).1),
)

-- A valid replica that another one forked from and ran local operations on catches up by one merge,
-- on either side, if no counter of its timestamp can overflow in as many operations.
pub merge_fast_forward :
    (ops : List SetOp) (s : LwwSet) (j : String)
    → IsValid s
    → RoomFor (count_ops ops) s.timestamp
    → (contains j (merge_with s (run_ops ops s)) ≡ contains j (run_ops ops s))
      × (contains j (merge_with (run_ops ops s) s) ≡ contains j (run_ops ops s))
merge_fast_forward ops s j v r = merge_ahead s (run_ops ops s) j v (run_ops-IsValid ops s v r) (
    run_ops-IsAhead ops s s v r
      (record { adds = Extends-refl s.adds; removes = Extends-refl s.removes }))
