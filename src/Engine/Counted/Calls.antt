-- ===== src/Engine/Counted/Calls.antt =====
-- What the calls of CRDT/CRDT_DBOps.go do to the count of each node in each counter.
use gossip_pubsub.Base.{
  ℕ, String, ◌≡◌, refl, ap, subst, ◌∙◌, Bool, true, false, ◌&&◌, Option, none, some, ◌==◌, eq_iff,
  if◌then◌else◌, inl, inr, Bool-cases, Option-cases, arith,
}
use gossip_pubsub.Base.Words.{add64}
use gossip_pubsub.GoMap.{lookup, IsMap}
use gossip_pubsub.Clock.{VectorClock}
use gossip_pubsub.OpHeap.{Op}
use gossip_pubsub.MemStore.Reads.{append_op_outcome}
use gossip_pubsub.MemStore.Counts.{set_kind}
use gossip_pubsub.Engine.{
  Engine, EngineError, InputError, submit, checked, set_op, counter_op, lww_add, lww_remove,
  counter_inc, validate_input, validate_counter_input,
}
use gossip_pubsub.Engine.Runs.{Call, add, remove, increment, call, call_error}
use gossip_pubsub.Engine.Counted.{
  count_in, HasCounts, stored_set, stored_inc, stored_inc-HasCounts, append_op-IsMap,
}

-- How a call changes the count of a node in a counter.
abbrev pub grown : Call → Option EngineError → String → String → ℕ → ℕ
grown (increment now n k d ts) none p j v = if (n == p) && (k == j) then add64 v d else v
grown (increment now n k d ts) (some r) p j v = v
grown (add now n k e ts) r p j v = v
grown (remove now n k e ts) r p j v = v

-- What holds after one call: counts grow by what it adds, and the maps stay maps.
pub record Counts (c : Call) (g : Engine) : Type 0 where
  pub map : IsMap (call c g).1.mem.objects
  pub has : (j : String) → HasCounts (lookup j (call c g).1.mem.objects)
  pub count :
      (p j : String)
      → count_in p (lookup j (call c g).1.mem.objects)
        ≡ grown c (call c g).0 p j (count_in p (lookup j g.mem.objects))

checked-IsMap :
    (v : Option InputError) (now : ℕ) (op : Op) (g : Engine)
    → IsMap g.mem.objects
    → IsMap (checked v now op g).1.mem.objects
unfolding checked submit
checked-IsMap none now op g h = append_op-IsMap now op g.mem h
checked-IsMap (some bad) now op g h = h

checked-submit :
    (v : Option InputError) (now : ℕ) (op : Op) (g : Engine)
    → (checked v now op g).0 ≡ none
    → checked v now op g ≡ submit now op g
unfolding checked
checked-submit none now op g h = refl
checked-submit (some bad) now op g h = cc

checked_sets-count :
    (v : Option InputError) (now : ℕ) (is_add : Bool) (n k e : String) (ts : VectorClock)
    (g : Engine) (p j : String)
    → ((i : String) → HasCounts (lookup i g.mem.objects))
    → (count_in p (lookup j (checked v now (set_op now (set_kind is_add) n k e ts) g).1.mem.objects)
        ≡ count_in p (lookup j g.mem.objects))
      × HasCounts (lookup j (checked v now (set_op now (set_kind is_add) n k e ts) g).1.mem.objects)
unfolding checked submit
checked_sets-count (some bad) now is_add n k e ts g p j has = (refl, has j)
checked_sets-count none now is_add n k e ts g p j has =
    let op = set_op now (set_kind is_add) n k e ts in
    let s = stored_set op is_add p (lookup k g.mem.objects) in
    elim (append_op_outcome now op g.mem) [
      | inl (refused, clash) ↦ rw refused (refl, has j)
      | inr (ok_op, free, at) ↦ rw (at j) (elim (Bool-cases (k == j)) [
        | inl same ↦
            rw same (
              s.0 ∙ ap (λ i. count_in p (lookup i g.mem.objects)) ((eq_iff k j).0 same),
              s.1 (has k),
            )
        | inr other ↦ rw other (refl, has j)
      ])
    ]

accepted_increment :
    (now : ℕ) (n k : String) (d : ℕ) (ts : VectorClock) (g : Engine) (p j : String)
    → (submit now (counter_op now n k d ts) g).0 ≡ none
    → ((i : String) → HasCounts (lookup i g.mem.objects))
    → (count_in p (lookup j (submit now (counter_op now n k d ts) g).1.mem.objects)
        ≡ grown (increment now n k d ts) none p j (count_in p (lookup j g.mem.objects)))
      × HasCounts (lookup j (submit now (counter_op now n k d ts) g).1.mem.objects)
unfolding submit
accepted_increment now n k d ts g p j accepted has =
    let op = counter_op now n k d ts in
    elim (append_op_outcome now op g.mem) [
      | inl (refused, clash) ↦ absurd (ground arith)
      | inr (ok_op, free, at) ↦
          let s = stored_inc op p (lookup k g.mem.objects) free in
          rw (at j) (elim (Bool-cases (k == j)) [
            | inl same ↦
                let here = (eq_iff k j).0 same in
                let kept = stored_inc-HasCounts op (lookup k g.mem.objects) (has k) in
                let moved = ap (λ i. count_in p (lookup i g.mem.objects)) here in
                rw same (ground arith, kept)
            | inr other ↦ rw other (ground arith, has j)
          ])
    ]

module _ (now : ℕ) (n k : String) (ts : VectorClock) (g : Engine) (map : IsMap g.mem.objects)
    (has : (i : String) → HasCounts (lookup i g.mem.objects)) where
  sets-Counts :
      (is_add : Bool) (e : String) (c : Call)
      → call c g ≡ checked (validate_input n k e) now (set_op now (set_kind is_add) n k e ts) g
      → ((r : Option EngineError) (p j : String) (v : ℕ) → grown c r p j v ≡ v)
      → Counts c g
  sets-Counts is_add e c same still =
      let v = validate_input n k e in
      let op = set_op now (set_kind is_add) n k e ts in
      let fact = λ (p j : String). checked_sets-count v now is_add n k e ts g p j has in
      record {
        map = rw same (checked-IsMap v now op g map);
        has = λ j. rw same ((fact "" j).1);
        count = λ p j. rw (still (call c g).0 p j) (rw same ((fact p j).0));
      }

  increment-Counts : (d : ℕ) → Counts (increment now n k d ts) g
  unfolding call counter_inc checked
  increment-Counts d = elim (Option-cases (call (increment now n k d ts) g).0) [
    | inl accepted ↦
        let v = validate_counter_input n k d in
        let op = counter_op now n k d ts in
        let same = checked-submit v now op g accepted in
        let taken = subst (λ r. r.0 ≡ none) same accepted in
        let fact = λ (p j : String). accepted_increment now n k d ts g p j taken has in
        record {
          map = checked-IsMap v now op g map;
          has = λ j. rw same ((fact "" j).1);
          count = λ p j. rw (accepted, grown) (rw same ((fact p j).0));
        }
    | inr (r, refused) ↦
        let same = call_error (increment now n k d ts) g r refused in
        record {
          map = rw same map;
          has = λ j. rw same (has j);
          count = λ p j. rw (refused, grown) (rw same refl);
        }
  ]

pub call-Counts :
    (c : Call) (g : Engine)
    → IsMap g.mem.objects
    → ((i : String) → HasCounts (lookup i g.mem.objects))
    → Counts c g
unfolding call lww_add lww_remove
call-Counts (add now n k e ts) g map has =
    sets-Counts now n k ts g map has true e (add now n k e ts) refl (λ r p j v. refl)
call-Counts (remove now n k e ts) g map has =
    sets-Counts now n k ts g map has false e (remove now n k e ts) refl (λ r p j v. refl)
call-Counts (increment now n k d ts) g map has = increment-Counts now n k ts g map has d
