-- ===== src/Crdt.antt =====
-- CRDT/crdt.go, interface `CRDT` with its two implementations, and the `Merge` methods' tests.
mod Examples
use gossip_pubsub.Base.{
  String, ◌≡◌, ◌≢◌, inl, inr, ◌==◌, eq_iff, if◌then◌else◌, Result, ok, err, refl, Bool-cases,
}
use gossip_pubsub.Clock.{VectorClock}
use gossip_pubsub.LwwSet
use gossip_pubsub.LwwSet.{LwwSet}
use gossip_pubsub.LwwSet.Validity
use gossip_pubsub.Counter
use gossip_pubsub.Counter.{Counter}
use gossip_pubsub.Counter.Convergence

-- The dynamic type behind the interface.
pub data Crdt : Type 0 where
  lww_set : LwwSet → Crdt
  counter : Counter → Crdt

unfoldable pub get_key : Crdt → String
get_key (lww_set s) = s.key
get_key (counter c) = c.key

unfoldable pub get_timestamp : Crdt → VectorClock
get_timestamp (lww_set s) = s.timestamp
get_timestamp (counter c) = c.timestamp

pub data MergeError : Type 0 where
  different_types different_keys : MergeError

-- func (s *LWWSet) Merge
unfoldable pub set_merge : LwwSet → Crdt → Result MergeError Crdt
set_merge s (lww_set o) =
    if s.key == o.key then ok (lww_set (LwwSet.merge_with s o)) else err different_keys
set_merge s (counter o) = err different_types

-- func (c *Counter) Merge
unfoldable pub counter_merge : Counter → Crdt → Result MergeError Crdt
counter_merge c (counter o) =
    if c.key == o.key then ok (counter (Counter.merge_with c o)) else err different_keys
counter_merge c (lww_set o) = err different_types

unfoldable pub merge : Crdt → Crdt → Result MergeError Crdt
unfolding set_merge counter_merge
merge (lww_set s) other = set_merge s other
merge (counter c) other = counter_merge c other

abbrev pub IsValid : Crdt → Type 0
IsValid (lww_set s) = LwwSet.Validity.IsValid s
IsValid (counter c) = Counter.Convergence.IsValid c

abbrev pub SameKind : Crdt → Crdt → Type 0
SameKind (lww_set s) (lww_set o) = Unit
SameKind (counter c) (counter o) = Unit
SameKind (lww_set s) (counter o) = ⊥
SameKind (counter c) (lww_set o) = ⊥

-- What `Merge` returns: a type error for different kinds, a key error for different keys, and
-- else a valid object of the same kind under the same key.
abbrev pub MergeOutcome : Crdt → Crdt → Result MergeError Crdt → Type 0
MergeOutcome a b (ok m) =
    SameKind a b × (get_key a ≡ get_key b) × SameKind a m × (get_key m ≡ get_key a) × IsValid m
MergeOutcome a b (err different_types) = ¬ SameKind a b
MergeOutcome a b (err different_keys) = SameKind a b × (get_key a ≢ get_key b)

-- On valid objects each outcome of `Merge` says what the objects are.
pub merge-MergeOutcome : (a b : Crdt) → IsValid a → IsValid b → MergeOutcome a b (merge a b)
unfolding merge get_key
merge-MergeOutcome (lww_set s) (counter o) v w = λ h. h
merge-MergeOutcome (counter c) (lww_set o) v w = λ h. h
merge-MergeOutcome (lww_set s) (lww_set o) v w = elim (Bool-cases (s.key == o.key)) [
  | inl e ↦
      rw (e, merge)
        (
          tt,
          (eq_iff s.key o.key).0 e,
          tt,
          unfold LwwSet.merge_with in refl,
          LwwSet.Validity.merge_with-IsValid s o v w,
        )
  | inr e ↦ rw (e, merge) (tt, λ p. cc ((eq_iff s.key o.key).1 p))
]
merge-MergeOutcome (counter c) (counter o) v w = elim (Bool-cases (c.key == o.key)) [
  | inl e ↦
      rw (e, merge)
        (
          tt,
          (eq_iff c.key o.key).0 e,
          tt,
          unfold Counter.merge_with in refl,
          Counter.Convergence.merge_with-IsValid c o,
        )
  | inr e ↦ rw (e, merge) (tt, λ p. cc ((eq_iff c.key o.key).1 p))
]
