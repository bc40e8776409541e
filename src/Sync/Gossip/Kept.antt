-- ===== src/Sync/Gossip/Kept.antt =====
-- What a node of CRDTSync/implementation.go holds, sends and merges, measured by the counts of a
-- history.
use gossip_pubsub.Base.{
  ℕ, ◌≤◌, String, ◌≡◌, refl, ap, Option, none, some, List, ok, inl, inr, Result-cases, arith,
}
use gossip_pubsub.GoMap.{IsMap}
use gossip_pubsub.Clock.Merge.{lookup-copy, copy-IsMap, lookup-merge, merge-IsMap}
use gossip_pubsub.Counter
use gossip_pubsub.Counter.{Counter, count_at}
use gossip_pubsub.Counter.Convergence.{counters-merge_with}
use gossip_pubsub.Crdt
use gossip_pubsub.Crdt.{Crdt, lww_set, counter, MergeError}
use gossip_pubsub.LwwSet
use gossip_pubsub.LwwSet.{LwwSet}
use gossip_pubsub.MemStore.{export_crdt}
use gossip_pubsub.MemStore.Export.{exported, export-counter, export-set}
use gossip_pubsub.Engine.Counted.{count_in, HasCounts}
use gossip_pubsub.Sync.Applied.{received}
use gossip_pubsub.Sync.Gossip.{Increment, made}

-- No count of an object passes that of the history.
pub record Kept (h : List Increment) (j : String) (o : Option Crdt) : Type 0 where
  pub has : HasCounts o
  pub bound : (p : String) → count_in p o ≤ made p j h

abbrev pub count_of_entry : Option ℕ → ℕ
count_of_entry none = 0
count_of_entry (some v) = v

module _ (p : String) (x y : Counter) (hx : IsMap x.counters) (hy : IsMap y.counters) where
  count-merge_with :
      (t : ℕ)
      → count_at p x.counters ≤ t
      → count_at p y.counters ≤ t
      → count_at p (Counter.merge_with x y).counters ≤ t
  count-merge_with t lx ly =
      rw counters-merge_with (ground (arith, lookup-merge x.counters y.counters p hx hy))

  pub count-merge_with_theirs : count_at p y.counters ≤ count_at p (Counter.merge_with x y).counters
  count-merge_with_theirs =
      rw counters-merge_with (ground (arith, lookup-merge x.counters y.counters p hx hy))

  count-merge_with_ours : count_at p x.counters ≤ count_at p (Counter.merge_with x y).counters
  count-merge_with_ours =
      rw counters-merge_with (ground (arith, lookup-merge x.counters y.counters p hx hy))

merged_sets :
    (s o : LwwSet) (m : Crdt)
    → Crdt.merge (lww_set s) (lww_set o) ≡ ok m
    → m ≡ lww_set (LwwSet.merge_with s o)
unfolding Crdt.merge
merged_sets s o m e = ground arith

merged_counters :
    (c o : Counter) (m : Crdt)
    → Crdt.merge (counter c) (counter o) ≡ ok m
    → m ≡ counter (Counter.merge_with c o)
unfolding Crdt.merge
merged_counters c o m e = ground arith

counters-IsMap : (c o : Counter) → IsMap (Counter.merge_with c o).counters
counters-IsMap c o = rw counters-merge_with (merge-IsMap c.counters o.counters)

-- The merge of what a history bounds is bounded by it.
merge-Kept :
    (h : List Increment) (j : String) (own remote m : Crdt)
    → Kept h j (some own)
    → Kept h j (some remote)
    → Crdt.merge own remote ≡ ok m
    → Kept h j (some m)
unfolding Crdt.merge
merge-Kept h j (lww_set s) (lww_set o) m a b e =
    rw (merged_sets s o m e) (record { has = tt; bound = λ p. omega arith })
merge-Kept h j (lww_set s) (counter o) m a b e = cc
merge-Kept h j (counter c) (lww_set o) m a b e = cc
merge-Kept h j (counter c) (counter o) m a b e = rw (merged_counters c o m e) (record {
  has = counters-IsMap c o;
  bound = λ p. count-merge_with p c o a.has b.has (made p j h) (a.bound p) (b.bound p);
})

-- A merge keeps the counts of the side that it is called on.
merge-grows :
    (own remote m : Crdt)
    → HasCounts (some own)
    → HasCounts (some remote)
    → Crdt.merge own remote ≡ ok m
    → (p : String) → count_in p (some own) ≤ count_in p (some m)
unfolding Crdt.merge
merge-grows (lww_set s) (lww_set o) m a b e p = omega arith
merge-grows (lww_set s) (counter o) m a b e p = cc
merge-grows (counter c) (lww_set o) m a b e p = cc
merge-grows (counter c) (counter o) m a b e p =
    rw (merged_counters c o m e) (count-merge_with_ours p c o a b)

-- An export keeps the counts.
pub exported-count :
    (j p : String) (o : Option Crdt) → HasCounts o → count_in p (exported j o) ≡ count_in p o
exported-count j p none h = refl
exported-count j p (some (lww_set s)) h = rw export-set refl
exported-count j p (some (counter c)) h =
    rw export-counter (ap count_of_entry (lookup-copy c.counters p h))

exported-HasCounts : (j : String) (o : Option Crdt) → HasCounts (exported j o)
exported-HasCounts j none = tt
exported-HasCounts j (some (lww_set s)) = rw export-set tt
exported-HasCounts j (some (counter c)) = rw export-counter (copy-IsMap c.counters)

pub exported-Kept :
    (h : List Increment) (j : String) (o : Option Crdt) → Kept h j o → Kept h j (exported j o)
exported-Kept h j o k = record {
  has = exported-HasCounts j o;
  bound = λ p. omega (arith, exported-count j p o k.has, k.bound p);
}

-- What a node stores of a received object is bounded, and is at least what it held.
pub received-Kept :
    (h : List Increment) (j : String) (own old : Option Crdt) (remote : Crdt)
    → Kept h j own
    → Kept h j old
    → Kept h j (some remote)
    → Kept h j (received own old remote)
received-Kept h j none old remote a b c = c
received-Kept h j (some own) old remote a b c = elim (Result-cases (Crdt.merge own remote)) [
  | inl (e, p) ↦ rw (p, received) b
  | inr (m, p) ↦ rw (p, received) (merge-Kept h j own remote m a c p)
]

pub received-grows :
    (j p : String) (old : Option Crdt) (remote : Crdt)
    → HasCounts old
    → HasCounts (some remote)
    → count_in p old ≤ count_in p (received (exported j old) old remote)
received-grows j p none remote a b = omega arith
received-grows j p (some own) remote a b =
    let copy = export_crdt j own in
    elim (Result-cases (Crdt.merge copy remote)) [
      | inl (e, q) ↦ rw (q, received) (omega arith)
      | inr (m, q) ↦
          rw (q, received)
            (let grown = merge-grows copy remote m (exported-HasCounts j (some own)) b q p in
              omega (arith, exported-count j p (some own) a))
    ]
