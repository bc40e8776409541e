-- ===== src/LwwSet/Validity.antt =====
-- The invariant of a set, and that its operations keep it.
use gossip_pubsub.Base.{
  String, ◌≡◌, refl, Bool, true, false, Option, none, some, [], ◌==◌, if◌then◌else◌, Option-cases,
  Bool-cases, inl, inr, arith, subst, ◌⊎◌, sym, ◌∙◌,
}
use gossip_pubsub.GoMap.{GoMap, lookup, insert, for_range, IsMap}
use gossip_pubsub.GoMap.Laws.{lookup-insert, insert-IsMap}
use gossip_pubsub.GoMap.Range.{for_range_inv, lookup-for_range}
use gossip_pubsub.Clock
use gossip_pubsub.Clock.{VectorClock, happens_after, copy_entry, increment, resolve}
use gossip_pubsub.Clock.Order.{LeClock, LeClock-trans, LeClock-refl}
use gossip_pubsub.Clock.Merge.{lookup-copy, copy-IsMap, merge-IsMap, le-merge_left, le-merge_right}
use gossip_pubsub.Clock.Increment.{HasRoom, increment-IsMap, le-increment, increment-happens_after}
use gossip_pubsub.Clock.TieBreak.{resolve_cases}
use gossip_pubsub.LwwSet.{
  LwwSet, new_lww_set, op_clock, apply_op, merge_element, merge_elements, merge_with,
}

-- A clock that stands in the set: distinct nodes, and no counter beyond the set's own clock.
pub record IsBelow (top c : VectorClock) : Type 0 where
  pub clock : IsMap c
  pub below : LeClock c top

pub record AllBelow (top : VectorClock) (m : GoMap VectorClock) : Type 0 where
  pub at : (e : String) (c : VectorClock) → lookup e m ≡ some c → IsBelow top c

pub record IsValid (s : LwwSet) : Type 0 where
  pub adds_map : IsMap s.adds
  pub removes_map : IsMap s.removes
  pub timestamp_map : IsMap s.timestamp
  pub adds_below : AllBelow s.timestamp s.adds
  pub removes_below : AllBelow s.timestamp s.removes

pub new_lww_set-IsValid : (key : String) → IsValid (new_lww_set key)
unfolding new_lww_set lookup
new_lww_set-IsValid key = record {
  adds_map = tt;
  removes_map = tt;
  timestamp_map = tt;
  adds_below = record { at = λ e c p. cc };
  removes_below = record { at = λ e c p. cc };
}

AllBelow-weaken :
    (top top' : VectorClock) (m : GoMap VectorClock)
    → LeClock top top'
    → AllBelow top m
    → AllBelow top' m
AllBelow-weaken top top' m le h = record {
  at = λ e c p. record {
    clock = (h.at e c p).clock;
    below = LeClock-trans c top top' (h.at e c p).below le;
  };
}

AllBelow-insert :
    (top ts : VectorClock) (m : GoMap VectorClock) (e : String)
    → IsBelow top ts
    → AllBelow top m
    → AllBelow top (insert e ts m)
AllBelow-insert top ts m e new h = record {
  at = λ j c p. elim (Bool-cases (e == j)) [
    | inl same ↦
        let eq : ts ≡ c = ground (arith, lookup-insert e j ts m) in subst (IsBelow top) eq new
    | inr other ↦ h.at j c (ground (arith, lookup-insert e j ts m))
  ];
}

-- The step of both `applyOp` and the store: write a clock above the set's.
op_clock-IsMap : (n : String) (s : LwwSet) → IsMap (op_clock n s)
unfolding op_clock
op_clock-IsMap n s =
    increment-IsMap n (for_range copy_entry s.timestamp []) (copy-IsMap s.timestamp)

-- What `applyOp` and the store's `applySetOp` do, over the clock `ts` that they write and the clock
-- `top` that the set has afterwards.
abbrev pub write : String → Bool → VectorClock → VectorClock → LwwSet → LwwSet
write e is_add ts top s =
    if is_add
    then record s { adds = insert e ts s.adds; timestamp = top }
    else record s { removes = insert e ts s.removes; timestamp = top }

pub write-IsValid :
    (e : String) (is_add : Bool) (ts top : VectorClock) (s : LwwSet)
    → IsMap top
    → LeClock s.timestamp top
    → IsBelow top ts
    → IsValid s
    → IsValid (write e is_add ts top s)
write-IsValid e true ts top s m le new v = record {
  adds_map = insert-IsMap e ts s.adds v.adds_map;
  removes_map = v.removes_map;
  timestamp_map = m;
  adds_below = AllBelow-insert top ts s.adds e new (AllBelow-weaken _ top s.adds le v.adds_below);
  removes_below = AllBelow-weaken s.timestamp top s.removes le v.removes_below;
}
write-IsValid e false ts top s m le new v = record {
  adds_map = v.adds_map;
  removes_map = insert-IsMap e ts s.removes v.removes_map;
  timestamp_map = m;
  adds_below = AllBelow-weaken s.timestamp top s.adds le v.adds_below;
  removes_below =
      AllBelow-insert top ts s.removes e new (AllBelow-weaken _ top s.removes le v.removes_below);
}

module _ (n : String) (s : LwwSet) (m : IsMap s.timestamp) (room : HasRoom n s.timestamp) where
  copied_room : HasRoom n (for_range copy_entry s.timestamp [])
  copied_room x e = room x (sym (lookup-copy s.timestamp n m) ∙ e)

  le-op_clock : LeClock s.timestamp (op_clock n s)
  unfolding op_clock
  le-op_clock k =
      rw (sym (lookup-copy s.timestamp k m))
        (le-increment n (for_range copy_entry s.timestamp []) copied_room k)

  -- The clock of a local operation comes after every clock that stands in the set.
  pub op_clock-happens_after :
      (d : VectorClock) → LeClock d s.timestamp → Clock.compare (op_clock n s) d ≡ happens_after
  unfolding op_clock
  op_clock-happens_after d le =
      increment-happens_after n (for_range copy_entry s.timestamp []) copied_room d
        λ k. rw (lookup-copy s.timestamp k m) (le k)

  pub apply_op-IsValid : (e : String) (is_add : Bool) → IsValid s → IsValid (apply_op n e is_add s)
  unfolding apply_op
  apply_op-IsValid e is_add v =
      let ts = op_clock n s in
      write-IsValid e is_add ts ts s (op_clock-IsMap n s) le-op_clock
        (record { clock = op_clock-IsMap n s; below = LeClock-refl ts }) v

merge_element_put : VectorClock → Option VectorClock → VectorClock
merge_element_put ts none = ts
merge_element_put ts (some our) = resolve our ts

merge_element_local :
    (k j : String) (v : VectorClock) (r : GoMap VectorClock)
    → lookup j (merge_element k v r)
      ≡ (if k == j then some (merge_element_put v (lookup k r)) else lookup j r)
unfolding merge_element merge_element_put
merge_element_local k j v r =
    ground (arith, lookup-insert k j v r, lookup-insert k j (merge_element_put v (lookup k r)) r)

-- What the merge of two maps holds for an element.
abbrev pub merged : Option VectorClock → Option VectorClock → Option VectorClock
merged none o = o
merged (some a) none = some a
merged (some a) (some b) = some (resolve a b)

pub lookup-merge_elements :
    (a b : GoMap VectorClock) (e : String)
    → IsMap a
    → IsMap b
    → lookup e (merge_elements a b) ≡ merged (lookup e a) (lookup e b)
unfolding merge_elements merge_element_put
lookup-merge_elements a b e ha hb = ground (
  arith,
  lookup-for_range merge_element merge_element_put merge_element_local b (for_range copy_entry a [])
      e hb,
  lookup-copy a e ha,
)

merge_element-IsMap :
    (k : String) (v : VectorClock) (r : GoMap VectorClock) → IsMap r → IsMap (merge_element k v r)
unfolding merge_element
merge_element-IsMap k v r h = elim (Option-cases (lookup k r)) [
  | inl e ↦ rw (e, merge_element) (insert-IsMap k v r h)
  | inr (our, e) ↦ rw (e, merge_element) (insert-IsMap k (resolve our v) r h)
]

merge_elements-IsMap : (a b : GoMap VectorClock) → IsMap (merge_elements a b)
unfolding merge_elements
merge_elements-IsMap a b =
    for_range_inv IsMap merge_element merge_element-IsMap b (for_range copy_entry a [])
      (copy-IsMap a)

resolve_either : (a b : VectorClock) → (resolve a b ≡ a) ⊎ (resolve a b ≡ b)
resolve_either a b = ground (arith, resolve_cases a b)

AllBelow-merge_elements :
    (top : VectorClock) (a b : GoMap VectorClock)
    → IsMap a
    → IsMap b
    → AllBelow top a
    → AllBelow top b
    → AllBelow top (merge_elements a b)
AllBelow-merge_elements top a b ha hb p q = record {
  at = λ e c found.
      pick e c (lookup e a) (lookup e b) refl refl
        (sym (lookup-merge_elements a b e ha hb) ∙ found);
}
  where
    pick :
        (e : String) (c : VectorClock) (x y : Option VectorClock)
        → lookup e a ≡ x
        → lookup e b ≡ y
        → merged x y ≡ some c
        → IsBelow top c
    pick e c none y ex ey h = q.at e c (ey ∙ h)
    pick e c (some x) none ex ey h = p.at e c (ex ∙ h)
    pick e c (some x) (some y) ex ey h = elim (resolve_either x y) [
      | inl r ↦ p.at e c (ground arith)
      | inr r ↦ q.at e c (ground arith)
    ]

pub merge_with-IsValid : (s o : LwwSet) → IsValid s → IsValid o → IsValid (merge_with s o)
unfolding merge_with
merge_with-IsValid s o v w =
    let top = Clock.merge s.timestamp o.timestamp in
    let left = le-merge_left s.timestamp o.timestamp v.timestamp_map w.timestamp_map in
    let right = le-merge_right s.timestamp o.timestamp v.timestamp_map w.timestamp_map in
    record {
      adds_map = merge_elements-IsMap s.adds o.adds;
      removes_map = merge_elements-IsMap s.removes o.removes;
      timestamp_map = merge-IsMap s.timestamp o.timestamp;
      adds_below =
          AllBelow-merge_elements top s.adds o.adds v.adds_map w.adds_map
            (AllBelow-weaken s.timestamp top s.adds left v.adds_below)
            (AllBelow-weaken o.timestamp top o.adds right w.adds_below);
      removes_below =
          AllBelow-merge_elements top s.removes o.removes v.removes_map w.removes_map
            (AllBelow-weaken s.timestamp top s.removes left v.removes_below)
            (AllBelow-weaken o.timestamp top o.removes right w.removes_below);
    }
