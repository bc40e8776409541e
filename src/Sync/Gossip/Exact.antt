-- ===== src/Sync/Gossip/Exact.antt =====
-- Each node of CRDTSync counts exactly what it was asked to count.
use gossip_pubsub.Base.{
  ℕ, ◌<◌, String, ◌≡◌, ◌≢◌, refl, sym, ap, ◌∙◌, Option, none, some, List, ◌++◌, inl, inr,
  Bool-cases, arith, ◌⊎◌, ◌==◌, eq_iff,
}
use gossip_pubsub.Base.Words.{u64_mod, add64}
use gossip_pubsub.GoMap.{lookup}
use gossip_pubsub.MemStore.{new_mem_store}
use gossip_pubsub.Engine.{EngineError, new_engine_mem_only}
use gossip_pubsub.Engine.Runs.{Call, call, add, remove, increment}
use gossip_pubsub.Engine.Counted.{count_in}
use gossip_pubsub.Engine.Counted.Calls.{grown, call-Counts}
use gossip_pubsub.Sync.{Environment, Node, SyncMode, receive_crdt_message}
use gossip_pubsub.Sync.Received.{receive_crdt_message_outcome}
use gossip_pubsub.Sync.Gossip.{
  Increment, issuer, accepted, made, System, Step, submit, publish, receive, Reach, start, later,
}
use gossip_pubsub.Sync.Gossip.Totals.{made_grows}
use gossip_pubsub.Sync.Gossip.Carried.{Sound, KeepsCounts}
use gossip_pubsub.Sync.Gossip.Bounded.{Invariant, update_elim, reach-Invariant, receive-Sound}

-- A call adds the same to a count and to the history, unless the count overflows.
grown-made :
    (c : Call) (r : Option EngineError) (p j : String) (v : ℕ) (h : List Increment)
    → v ≡ made p j h
    → made p j (accepted c r ++ h) < u64_mod
    → grown c r p j v ≡ made p j (accepted c r ++ h)
unfolding made add64
grown-made (increment now n k d ts) none p j v h e fits = ground arith
grown-made (increment now n k d ts) (some r) p j v h e fits = e
grown-made (add now n k x ts) r p j v h e fits = e
grown-made (remove now n k x ts) r p j v h e fits = e

-- A call adds nothing to what another node made.
made-other :
    (c : Call) (r : Option EngineError) (p j : String) (h : List Increment)
    → issuer c ≢ p
    → made p j (accepted c r ++ h) ≡ made p j h
unfolding made
made-other (increment now n k d ts) none p j h ne = ground (arith, eq_iff n p)
made-other (increment now n k d ts) (some r) p j h ne = refl
made-other (add now n k x ts) r p j h ne = refl
made-other (remove now n k x ts) r p j h ne = refl

abbrev pub AreDistinct : (ℕ → String) → Type 0
AreDistinct ids = (a b : ℕ) → ids a ≡ ids b → a ≡ b

-- The node `i` has its own counts right.
abbrev pub CountsOwn : (ℕ → String) → List Increment → ℕ → Node → Type 0
CountsOwn ids h i n =
    (j : String)
    → made (ids i) j h < u64_mod
    → count_in (ids i) (lookup j n.engine.mem.objects) ≡ made (ids i) j h

-- Nodes keep their ids and have their own counts right, and all increments are of one of them.
pub record Own (ids : ℕ → String) (h : List Increment) (s : System) : Type 0 where
  pub names : (i : ℕ) → (s.nodes i).node_id ≡ ids i
  pub own : (i : ℕ) → CountsOwn ids h i (s.nodes i)
  pub issued : (p j : String) → (made p j h ≡ 0) ⊎ ((m : ℕ) × (p ≡ ids m))

module _ (ids : ℕ → String) (h : List Increment) (c : Call) (n : Node) (i : ℕ)
    (s : Sound h n.engine) (own : CountsOwn ids h i n) where
  call-CountsOwn :
      CountsOwn ids
        (accepted c (call c n.engine).0 ++ h)
        i
        (record n { engine = (call c n.engine).1 })
  call-CountsOwn j fits =
      let r = (call c n.engine).0 in
      let counts = call-Counts c n.engine s.map (λ k. (s.kept k).has) in
      let before = made_grows (ids i) j (accepted c r) h in
      counts.count (ids i) j
      ∙ grown-made c r (ids i) j (count_in (ids i) (lookup j n.engine.mem.objects)) h
          (own j (omega (arith, before, fits))) fits

module _ {W E : Type 0} (env : Environment W E) where
  pub node_id-receive : (n : Node) (w : W) → (receive_crdt_message env n w).1.node_id ≡ n.node_id
  node_id-receive n w = elim (receive_crdt_message_outcome env n w) [
    | inl (msg, a, quiet, stored) ↦ rw stored refl
    | inr (none_arrives, same) ↦ ap (λ (x : Node). x.node_id) same
  ]

  module _ (law : KeepsCounts env) (ids : ℕ → String) (distinct : AreDistinct ids) where
    step-Own :
        (h : List Increment) (s : System) (es : List Increment) (t : System)
        → Step env s es t
        → Invariant env h s
        → Own ids h s
        → Own ids (es ++ h) t
    step-Own h s es t (submit i c of_node) inv o =
        let r = (call c (s.nodes i).engine).0 in
        let by_i = of_node ∙ o.names i in
        record {
          names = λ j.
              update_elim (λ k n. n.node_id ≡ ids k) s.nodes i _ j (o.names i) (λ ne. o.names j);
          own = λ j.
              update_elim (CountsOwn ids (accepted c r ++ h)) s.nodes i _ j
                (call-CountsOwn ids h c (s.nodes i) i (inv.nodes i) (o.own i))
                (λ ne x fits.
                  let same = made-other c r (ids j) x h (λ e. ne (distinct i j (sym by_i ∙ e))) in
                  omega (arith, same, o.own j x (omega (arith, same, fits))));
          issued = λ p x. elim (Bool-cases (ids i == p)) [
            | inl same ↦ inr (i, sym ((eq_iff (ids i) p).0 same))
            | inr other ↦ elim (o.issued p x) [
              | inl zero_made ↦
                  inl (
                    made-other c r p x h (λ e. cc ((eq_iff (ids i) p).1 (sym by_i ∙ e)))
                    ∙ zero_made)
              | inr by ↦ inr by
            ]
          ];
        }
    step-Own h s es t (publish i w) inv o = record {
      names = o.names;
      own = o.own;
      issued = o.issued;
    }
    step-Own h s es t (receive i w from) inv o = record {
      names = λ j.
          update_elim (λ k n. n.node_id ≡ ids k) s.nodes i _ j
            (node_id-receive (s.nodes i) w ∙ o.names i) (λ ne. o.names j);
      own = λ j.
          update_elim (CountsOwn ids h) s.nodes i _ j
            (λ x fits.
              let (sound, grows) =
                receive-Sound env h s.network (s.nodes i) w inv.network (inv.nodes i) from in
              omega (arith, (sound.kept x).bound (ids i), grows (ids i) x, o.own i x fits))
            (λ ne. o.own j);
      issued = o.issued;
    }

    pub reach-Own :
        (cap : ℕ) (modes : ℕ → SyncMode) {s : System} {h : List Increment}
        → Reach env cap ids modes s h
        → Own ids h s
    unfolding made new_engine_mem_only new_mem_store lookup
    reach-Own cap modes start = record {
      names = λ i. refl;
      own = λ i j fits. refl;
      issued = λ p j. inl refl;
    }
    reach-Own cap modes (later {s} {t} {es} {h} r st) =
        step-Own h s es t st (reach-Invariant env law cap ids modes r) (reach-Own cap modes r)
