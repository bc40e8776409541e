-- ===== src/MemStore/Sets.antt =====
-- What `GetSetElements` of CRDT/MemoryStore.go returns after an operation with no clock of its own.
use gossip_pubsub.Base.{
  ℕ, String, ◌≡◌, refl, sym, ap, subst, ◌∙◌, Bool, true, false, Option, none, some, List, [], ◌==◌,
  eq_iff, if◌then◌else◌, arith, inl, inr, Bool-cases,
}
use gossip_pubsub.Base.Sorting.{elem}
use gossip_pubsub.GoMap.{lookup, IsMap}
use gossip_pubsub.Clock.Increment.{HasRoom}
use gossip_pubsub.LwwSet.{new_lww_set, contains}
use gossip_pubsub.LwwSet.Validity.{new_lww_set-IsValid}
use gossip_pubsub.LwwSet.Visible.{get_elements_lem}
use gossip_pubsub.Crdt
use gossip_pubsub.Crdt.{Crdt, lww_set, counter}
use gossip_pubsub.OpHeap.{Op}
use gossip_pubsub.MemStore.{MemStore, append_op, apply_set_op, get_set_elements}
use gossip_pubsub.MemStore
use gossip_pubsub.MemStore.Validity.{AllValid, append_op-IsValid}
use gossip_pubsub.MemStore.Reads.{append_op_outcome, conflicts, stored, contains-apply_set_op_auto}
use gossip_pubsub.MemStore.Counts.{set_kind}

-- An element among those that a read returns; a read that fails returns none.
abbrev pub in_read : String → Option (List String) → Bool
in_read j none = false
in_read j (some l) = elem j l

abbrev pub member : String → Option Crdt → Bool
member j none = false
member j (some (lww_set s)) = contains j s
member j (some (counter c)) = false

pub in_read-member :
    (s : MemStore) (k j : String)
    → AllValid s.objects
    → in_read j (get_set_elements k s) ≡ member j (lookup k s.objects)
unfolding get_set_elements
in_read-member s k j h = go (lookup k s.objects) refl
  where
    go :
        (o : Option Crdt)
        → lookup k s.objects ≡ o
        → in_read j (get_set_elements k s) ≡ member j (lookup k s.objects)
    go none p = ground arith
    go (some (counter c)) p = ground arith
    go (some (lww_set t)) p = ground (arith, (get_elements_lem t (h.valid k (lww_set t) p)).1 j)

-- The counter of the operation's node can still grow in the set's clock.
abbrev pub RoomIn : String → Option Crdt → Type 0
RoomIn n none = Unit
RoomIn n (some (lww_set s)) = HasRoom n s.timestamp
RoomIn n (some (counter c)) = Unit

new_room : (n key : String) → HasRoom n (new_lww_set key).timestamp
unfolding new_lww_set lookup
new_room n key x e = cc

not-contains-new : (j key : String) → contains j (new_lww_set key) ≡ false
unfolding contains new_lww_set lookup
not-contains-new j key = refl

member-created :
    (op : Op) (is_add : Bool) (j : String)
    → op.ts ≡ []
    → contains j (apply_set_op (new_lww_set op.key) op.node_id op.element is_add op.ts)
      ≡ (if op.element == j then is_add else false)
member-created op is_add j e =
    ap (λ ts. contains j (apply_set_op (new_lww_set op.key) op.node_id op.element is_add ts)) e
    ∙ contains-apply_set_op_auto (new_lww_set op.key) op.node_id op.element j is_add
        (new_lww_set-IsValid op.key) (new_room op.node_id op.key)
    ∙ ap (λ b. if op.element == j then is_add else b) (not-contains-new j op.key)

member-if :
    (b : Bool) (j : String) (x y : Option Crdt)
    → member j (if b then x else y) ≡ (if b then member j x else member j y)
member-if true j x y = refl
member-if false j x y = refl

member-stored :
    (op : Op) (is_add : Bool) (o : Option Crdt) (j : String)
    → op.ts ≡ []
    → conflicts (set_kind is_add) o ≡ false
    → RoomIn op.node_id o
    → ((c : Crdt) → o ≡ some c → Crdt.IsValid c)
    → member j (stored op (set_kind is_add) o) ≡ (if op.element == j then is_add else member j o)
member-stored op true none j e h room v = member-created op true j e
member-stored op false none j e h room v = member-created op false j e
member-stored op true (some (lww_set s)) j e h room v =
    ap (λ ts. contains j (apply_set_op s op.node_id op.element true ts)) e
    ∙ contains-apply_set_op_auto s op.node_id op.element j true (v (lww_set s) refl) room
member-stored op false (some (lww_set s)) j e h room v =
    ap (λ ts. contains j (apply_set_op s op.node_id op.element false ts)) e
    ∙ contains-apply_set_op_auto s op.node_id op.element j false (v (lww_set s) refl) room
member-stored op true (some (counter c)) j e h room v = cc
member-stored op false (some (counter c)) j e h room v = cc

-- In a valid store, and where the set of the key has no counter of the node that overflows by one
-- more, an add that the store accepts, with no clock of its own, makes its element readable under
-- its key, and a remove hides it. No other element and no other key's elements change.
pub get_set_elements-append_op :
    (now : ℕ) (op : Op) (is_add : Bool) (s : MemStore) (k j : String)
    → MemStore.Validity.IsValid s
    → op.kind ≡ set_kind is_add
    → op.ts ≡ []
    → RoomIn op.node_id (lookup op.key s.objects)
    → (append_op now op s).0 ≡ none
    → in_read j (get_set_elements k (append_op now op s).1) ≡ (
        if op.key == k
        then (if op.element == j then is_add else in_read j (get_set_elements k s))
        else in_read j (get_set_elements k s))
get_set_elements-append_op now op is_add s k j v kind e room accepted =
    elim (append_op_outcome now op s) [
      | inl (refused, clash) ↦ absurd (cc (ap (λ r. r.0) refused))
      | inr (ok_op, free, at) ↦
          let old = lookup op.key s.objects in
          let free' : conflicts (set_kind is_add) old ≡ false =
            subst (λ κ. conflicts κ old ≡ false) kind free in
          let after = append_op-IsValid now op s (subst IsMap (sym e) tt) v in
          in_read-member (append_op now op s).1 k j after.objects
          ∙ ap (member j) (at k)
          ∙ member-if (op.key == k) j (stored op op.kind old) (lookup k s.objects)
          ∙ elim (Bool-cases (op.key == k)) [
            | inl same ↦ rw same (
                ap (λ κ. member j (stored op κ old)) kind
                ∙ member-stored op is_add old j e free' room (v.objects.valid op.key)
                ∙ ap (λ b. if op.element == j then is_add else b)
                    (ap (λ i. member j (lookup i s.objects)) ((eq_iff op.key k).0 same)
                      ∙ sym (in_read-member s k j v.objects)))
            | inr other ↦ rw other (sym (in_read-member s k j v.objects))
          ]
    ]
