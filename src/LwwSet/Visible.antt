-- ===== src/LwwSet/Visible.antt =====
-- The visible elements of a set (CRDT/crdt.go, `Contains` and `GetElements`) after local operations.
use gossip_pubsub.Base.{
  ℕ, suc, ◌+◌, ◌<◌, String, ◌≡◌, refl, Bool, true, false, some, List, [], ◌∷◌, ◌==◌, ◌&&◌, eq_iff,
  if◌then◌else◌, Option-cases, Bool-cases, inl, inr, arith, is_some, ap, ◌∙◌,
}
use gossip_pubsub.Base.Words.{u64_mod, add64_exact}
use gossip_pubsub.Base.Sorting.{
  elem, IsAscending, IsDistinct, elem-sort_strings, sort_strings-IsAscending,
}
use gossip_pubsub.GoMap.{GoMap, lookup, for_range, IsMap}
use gossip_pubsub.GoMap.Laws.{lookup-insert}
use gossip_pubsub.Clock.{VectorClock, increment, copy_entry}
use gossip_pubsub.Clock.Comparing.{compare-opposite}
use gossip_pubsub.Clock.Merge.{lookup-copy}
use gossip_pubsub.Clock.Increment.{HasRoom, lookup-increment}
use gossip_pubsub.LwwSet.{LwwSet, op_clock, apply_op, contains, visible, get_elements}
use gossip_pubsub.LwwSet.Validity.{IsValid, op_clock-happens_after, apply_op-IsValid}

-- A local add makes its element visible, a local remove hides it, and neither touches another
-- element, while the node's counter can still grow.
pub contains-apply_op :
    (n e j : String) (is_add : Bool) (s : LwwSet)
    → IsValid s
    → HasRoom n s.timestamp
    → contains j (apply_op n e is_add s) ≡ (if e == j then is_add else contains j s)
unfolding contains apply_op
contains-apply_op n e j true s v room = elim (Option-cases (lookup j s.removes)) [
  | inl q ↦ ground (arith, lookup-insert e j (op_clock n s) s.adds)
  | inr (rm, q) ↦
      let after =
        op_clock-happens_after n s v.timestamp_map room rm (v.removes_below.at j rm q).below in
      ground (arith, lookup-insert e j (op_clock n s) s.adds)
]
contains-apply_op n e j false s v room = elim (Option-cases (lookup j s.adds)) [
  | inl q ↦ ground (arith, lookup-insert e j (op_clock n s) s.removes)
  | inr (ad, q) ↦
      let after =
        op_clock-happens_after n s v.timestamp_map room ad (v.adds_below.at j ad q).below in
      ground (arith, lookup-insert e j (op_clock n s) s.removes, compare-opposite (op_clock n s) ad)
]

elem-visible :
    (s : LwwSet) (m : GoMap VectorClock) (j : String)
    → elem j (visible s m) ≡ (is_some (lookup j m) && contains j s)
unfolding visible lookup
elem-visible s [] j = refl
elem-visible s ((k, c) ∷ m) j = ground (arith, eq_iff k j, elem-visible s m j)

visible-IsDistinct : (s : LwwSet) (m : GoMap VectorClock) → IsMap m → IsDistinct (visible s m)
unfolding visible
visible-IsDistinct s [] h = tt
visible-IsDistinct s ((k, c) ∷ m) h = ground (arith, elem-visible s m k, visible-IsDistinct s m h.1)

-- `GetElements` lists exactly the elements that `Contains` accepts, each once, in ascending order.
pub get_elements_lem :
    (s : LwwSet)
    → IsValid s
    → IsAscending (get_elements s) × ((j : String) → elem j (get_elements s) ≡ contains j s)
unfolding get_elements contains
get_elements_lem s v = (
  sort_strings-IsAscending (visible s s.adds) (visible-IsDistinct s s.adds v.adds_map),
  λ j. ground (arith, elem-sort_strings j (visible s s.adds), elem-visible s s.adds j),
)

-- A sequence of local operations.
pub record SetOp : Type 0 where
  pub node_id : String
  pub element : String
  pub is_add : Bool

abbrev pub run_ops : List SetOp → LwwSet → LwwSet
run_ops [] s = s
run_ops (op ∷ ops) s = run_ops ops (apply_op op.node_id op.element op.is_add s)

-- The abstract set: the last operation on an element decides.
abbrev pub last_wins : List SetOp → String → Bool → Bool
last_wins [] j b = b
last_wins (op ∷ ops) j b = last_wins ops j (if op.element == j then op.is_add else b)

abbrev pub count_ops : List SetOp → ℕ
count_ops [] = 0
count_ops (op ∷ ops) = suc (count_ops ops)

-- No counter of the clock overflows within n operations.
pub record RoomFor (n : ℕ) (c : VectorClock) : Type 0 where
  pub fits : n < u64_mod
  pub at : (k : String) (x : ℕ) → lookup k c ≡ some x → x + n < u64_mod

pub RoomFor-HasRoom : (n : ℕ) (c : VectorClock) (k : String) → RoomFor (suc n) c → HasRoom k c
RoomFor-HasRoom n c k r x e = omega (arith, r.at k x e)

RoomFor-op_clock :
    (n : ℕ) (k : String) (s : LwwSet)
    → IsMap s.timestamp
    → RoomFor (suc n) s.timestamp
    → RoomFor n (op_clock k s)
unfolding op_clock
RoomFor-op_clock n k s m r = record { fits = omega (arith, r.fits); at = step }
  where
    c : VectorClock
    c = for_range copy_entry s.timestamp []

    step : (j : String) (x : ℕ) → lookup j (increment k c) ≡ some x → x + n < u64_mod
    step j x e = elim (Bool-cases (k == j)) [
      | inl same ↦ elim (Option-cases (lookup k s.timestamp)) [
        | inl q ↦ ground (arith, lookup-increment k j c, lookup-copy s.timestamp k m, r.fits)
        | inr (y, q) ↦
            let bound = r.at k y q in
            ground (
              arith,
              lookup-increment k j c,
              lookup-copy s.timestamp k m,
              add64_exact y 1 (omega arith),
            )
      ]
      | inr other ↦
          let found : lookup j s.timestamp ≡ some x =
            ground (arith, lookup-increment k j c, lookup-copy s.timestamp j m) in
          omega (arith, r.at j x found)
    ]

timestamp-apply_op :
    (n e : String) (is_add : Bool) (s : LwwSet) → (apply_op n e is_add s).timestamp ≡ op_clock n s
unfolding apply_op
timestamp-apply_op n e is_add s = ground arith

module _ (op : SetOp) (n : ℕ) (s : LwwSet) (v : IsValid s) (r : RoomFor (suc n) s.timestamp) where
  abbrev pub after_op : LwwSet
  after_op = apply_op op.node_id op.element op.is_add s

  pub after_op-IsValid : IsValid after_op
  after_op-IsValid =
      apply_op-IsValid op.node_id s v.timestamp_map (RoomFor-HasRoom n s.timestamp op.node_id r)
        op.element op.is_add v

  pub after_op-RoomFor : RoomFor n after_op.timestamp
  after_op-RoomFor = rw timestamp-apply_op (RoomFor-op_clock n op.node_id s v.timestamp_map r)

pub run_ops-IsValid :
    (ops : List SetOp) (s : LwwSet)
    → IsValid s
    → RoomFor (count_ops ops) s.timestamp
    → IsValid (run_ops ops s)
run_ops-IsValid [] s v r = v
run_ops-IsValid (op ∷ ops) s v r =
    run_ops-IsValid ops (after_op op (count_ops ops) s v r)
      (after_op-IsValid op (count_ops ops) s v r) (after_op-RoomFor op (count_ops ops) s v r)

-- Through any sequence of local operations the set is the one in which the last operation on each
-- element decides, as long as no counter overflows.
pub contains-run_ops :
    (ops : List SetOp) (s : LwwSet) (j : String)
    → IsValid s
    → RoomFor (count_ops ops) s.timestamp
    → contains j (run_ops ops s) ≡ last_wins ops j (contains j s)
contains-run_ops [] s j v r = refl
contains-run_ops (op ∷ ops) s j v r =
    contains-run_ops ops (after_op op (count_ops ops) s v r) j
      (after_op-IsValid op (count_ops ops) s v r) (after_op-RoomFor op (count_ops ops) s v r)
    ∙ ap (last_wins ops j) (
        contains-apply_op op.node_id op.element j op.is_add s v
          (RoomFor-HasRoom (count_ops ops) s.timestamp op.node_id r))
