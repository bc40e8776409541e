-- ===== src/Sync/Gossip/Converged.antt =====
-- A node of CRDTSync that heard from every node that counted reads exactly what was counted.
use gossip_pubsub.Base.{
  ℕ, ◌≤◌, ◌<◌, ◌%◌, String, ◌≡◌, ◌≢◌, refl, sym, subst, ap, ◌∙◌, Option, none, some, List, [], inl,
  inr, Bool-cases, eqb, arith,
}
use gossip_pubsub.Base.Words.{u64_mod}
use gossip_pubsub.GoMap.{lookup}
use gossip_pubsub.Counter.{Counter, count_at}
use gossip_pubsub.Counter.Total.{sum, value-sum}
use gossip_pubsub.Crdt.{Crdt, lww_set, counter}
use gossip_pubsub.MemStore.{export_crdt}
use gossip_pubsub.MemStore.Counts.{count_of}
use gossip_pubsub.Engine.{get_counter}
use gossip_pubsub.Engine.Counted.{count_in, HasCounts}
use gossip_pubsub.Sync.{Environment, SyncMode, sync_message}
use gossip_pubsub.Sync.Exchange.{ReadsBack, counter_in, get_counter-lookup}
use gossip_pubsub.Sync.Gossip.{Increment, made, total, System, Reach}
use gossip_pubsub.Sync.Gossip.Totals.{sum-eq-total}
use gossip_pubsub.Sync.Gossip.Carried.{Sound, Grows, KeepsCounts}
use gossip_pubsub.Sync.Gossip.Bounded.{Invariant, reach-Invariant}
use gossip_pubsub.Sync.Gossip.Exact.{AreDistinct, Own, reach-Own}
use gossip_pubsub.Sync.Gossip.Heard.{
  HoldsSet, receive_all, AllFrom, Receives, receive_all-Sound, receive_all-Heard,
}

counter_held :
    (p : String) (o : Option Crdt) → count_in p o ≢ 0 → (x : Counter) × (o ≡ some (counter x))
counter_held p none ne = absurd (ne refl)
counter_held p (some (lww_set s)) ne = absurd (ne refl)
counter_held p (some (counter c)) ne = (c, refl)

read-total :
    (h : List Increment) (j : String) (o : Option Crdt)
    → HasCounts o
    → ((p : String) → count_in p o ≡ made p j h)
    → ¬ HoldsSet o
    → count_of (counter_in o) ≡ total j h % u64_mod
unfolding lookup sum
read-total h j none has same ok = let all = sum-eq-total j [] h tt same in omega (arith, all)
read-total h j (some (lww_set s)) has same ok = absurd (ok tt)
read-total h j (some (counter c)) has same ok =
    omega (arith, value-sum c, sum-eq-total j c.counters h has same)

module _ {W E : Type 0} (env : Environment W E) (law : KeepsCounts env) (ids : ℕ → String)
    (distinct : AreDistinct ids) where
  module _ (s : System) (h : List Increment) (i : ℕ) (j : String) (ws : List W)
      (inv : Invariant env h s) (own : Own ids h s) (fits : (m : ℕ) → made (ids m) j h < u64_mod)
      (from : AllFrom env s.network ws)
      (heard : (m : ℕ)
        → m ≢ i
        → made (ids m) j h ≢ 0
        → (w : W) × Receives env (s.nodes i) ws (sync_message env (s.nodes m) w))
      (readable : (m : ℕ) (x : Counter)
        → lookup j (s.nodes m).engine.mem.objects ≡ some (counter x)
        → ReadsBack env (export_crdt j (counter x)))
      (plain : ¬ HoldsSet (lookup j (receive_all env ws (s.nodes i)).engine.mem.objects)) where
    at_end :
        Sound h (receive_all env ws (s.nodes i)).engine
        × Grows (s.nodes i).engine (receive_all env ws (s.nodes i)).engine
    at_end = receive_all-Sound env h j s.network inv.network ws (s.nodes i) from (inv.nodes i)

    from_self :
        made (ids i) j h
        ≤ count_in (ids i) (lookup j (receive_all env ws (s.nodes i)).engine.mem.objects)
    from_self = omega (arith, own.own i j (fits i), at_end.1 (ids i) j)

    from_other :
        (m : ℕ)
        → m ≢ i
        → made (ids m) j h ≢ 0
        → made (ids m) j h
          ≤ count_in (ids m) (lookup j (receive_all env ws (s.nodes i)).engine.mem.objects)
    from_other m other some_made =
        let mine = own.own m j (fits m) in
        let (x, held) =
          counter_held (ids m) (lookup j (s.nodes m).engine.mem.objects)
            (λ e. some_made (sym mine ∙ e)) in
        let (w, arrives) = heard m other some_made in
        let count : count_at (ids m) x.counters ≡ made (ids m) j h =
          sym (ap (count_in (ids m)) held) ∙ mine in
        elim (receive_all-Heard env h j (s.nodes m) w x (inv.nodes m) held (readable m x held)
          s.network ws (s.nodes i) (ids m) inv.network from (inv.nodes i) arrives) [
            | inl set ↦ absurd (plain set)
            | inr le ↦ omega (arith, le, count)
          ]

    from_node :
        (m : ℕ)
        → made (ids m) j h
          ≤ count_in (ids m) (lookup j (receive_all env ws (s.nodes i)).engine.mem.objects)
    from_node m = elim (Bool-cases (eqb m i)) [
      | inl same ↦
          let e : i ≡ m = ground arith in
          subst
            (λ k.
              made (ids k) j h
              ≤ count_in (ids k) (lookup j (receive_all env ws (s.nodes i)).engine.mem.objects))
            e from_self
      | inr other ↦ elim (Bool-cases (eqb (made (ids m) j h) 0)) [
        | inl zero_made ↦ ground arith
        | inr some_made ↦ from_other m (λ e. ground arith) (λ e. ground arith)
      ]
    ]

    exact :
        (p : String)
        → count_in p (lookup j (receive_all env ws (s.nodes i)).engine.mem.objects) ≡ made p j h
    exact p = elim (own.issued p j) [
      | inl zero_made ↦ omega (arith, (at_end.0.kept j).bound p, zero_made)
      | inr (m, q) ↦ rw q (omega (arith, (at_end.0.kept j).bound (ids m), from_node m))
    ]

    reads_total :
        count_of (get_counter j (receive_all env ws (s.nodes i)).engine) ≡ total j h % u64_mod
    reads_total =
        ap count_of (get_counter-lookup (receive_all env ws (s.nodes i)).engine j)
        ∙ read-total h j _ (at_end.0.kept j).has exact plain

  -- Where the calls at one node follow one another (the publisher does not add while a received message
  -- is applied): in every reached state in which no count of the key overflowed, a node that then
  -- makes any sequence of calls of `receiveCRDTMessage`, in which a message that each other node that counted
  -- for the key made of its present state arrives, among others that were published before, reads
  -- the sum of all accepted increments of the key modulo 2^64, unless it holds a set under the key.
  -- The counters' copies have to read back from the messages.
  pub receive_all-total :
      (cap : ℕ) (modes : ℕ → SyncMode) (s : System) (h : List Increment) (i : ℕ) (j : String)
      (ws : List W)
      → Reach env cap ids modes s h
      → ((m : ℕ) → made (ids m) j h < u64_mod)
      → AllFrom env s.network ws
      → ((m : ℕ)
          → m ≢ i
          → made (ids m) j h ≢ 0
          → (w : W) × Receives env (s.nodes i) ws (sync_message env (s.nodes m) w))
      → ((m : ℕ) (x : Counter)
          → lookup j (s.nodes m).engine.mem.objects ≡ some (counter x)
          → ReadsBack env (export_crdt j (counter x)))
      → ¬ HoldsSet (lookup j (receive_all env ws (s.nodes i)).engine.mem.objects)
      → count_of (get_counter j (receive_all env ws (s.nodes i)).engine) ≡ total j h % u64_mod
  receive_all-total cap modes s h i j ws r fits from heard readable plain =
      reads_total s h i j ws (reach-Invariant env law cap ids modes r)
        (reach-Own env law ids distinct cap modes r) fits from heard readable plain
