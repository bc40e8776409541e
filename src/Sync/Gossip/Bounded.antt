-- ===== src/Sync/Gossip/Bounded.antt =====
-- No node of CRDTSync ever counts more than was accepted, whatever the network does.
use gossip_pubsub.Base.{
  ℕ, ◌≤◌, String, ◌≡◌, ◌≢◌, sym, subst, ◌∙◌, Option, none, some, List, [], ◌++◌, inl, inr,
  Bool-cases, eqb, arith,
}
use gossip_pubsub.GoMap.{GoMap, lookup}
use gossip_pubsub.Counter.{value}
use gossip_pubsub.Counter.Total.{value-sum}
use gossip_pubsub.Crdt.{Crdt, lww_set, counter}
use gossip_pubsub.MemStore.{new_mem_store}
use gossip_pubsub.Engine.{Engine, get_counter, new_engine_mem_only}
use gossip_pubsub.Engine.Runs.{Call, call}
use gossip_pubsub.Engine.Counted.{count_in}
use gossip_pubsub.Engine.Counted.Calls.{call-Counts}
use gossip_pubsub.Sync.{Environment, Message, Node, SyncMode, receive_crdt_message}
use gossip_pubsub.Sync.Exchange.{counter_in, get_counter-lookup}
use gossip_pubsub.Sync.Received.{receive_crdt_message_outcome}
use gossip_pubsub.Sync.Gossip.{
  Increment, accepted, total, System, update, IsAmong, FromNetwork, Step, submit, publish, receive,
  Reach, start, later,
}
use gossip_pubsub.Sync.Gossip.Totals.{made_grows, grown-le, sum-le-total}
use gossip_pubsub.Sync.Gossip.Kept.{Kept}
use gossip_pubsub.Sync.Gossip.Carried.{
  Sound, Grows, KeepsCounts, MessageCarries, sync_message-Carries, apply_message-Sound,
}

-- What holds of the changed node and of the others holds of each node.
pub update_elim :
    (P : ℕ → Node → Type 0) (nodes : ℕ → Node) (i : ℕ) (n : Node) (j : ℕ)
    → P i n
    → (i ≢ j → P j (nodes j))
    → P j (update nodes i n j)
update_elim P nodes i n j new old = elim (Bool-cases (eqb i j)) [
  | inl same ↦ let e : i ≡ j = ground arith in rw (same, update) (subst (λ x. P x n) e new)
  | inr other ↦ rw (other, update) (old (λ e. ground arith))
]

later-Kept :
    (es h : List Increment) (j : String) (o : Option Crdt) → Kept h j o → Kept (es ++ h) j o
later-Kept es h j o k = record {
  has = k.has;
  bound = λ p. omega (arith, k.bound p, made_grows p j es h);
}

later-Sound : (es h : List Increment) (e : Engine) → Sound h e → Sound (es ++ h) e
later-Sound es h e s = record { map = s.map; kept = λ j. later-Kept es h j _ (s.kept j) }

-- A call keeps the objects bounded by the history that it is added to.
call-Sound :
    (h : List Increment) (c : Call) (e : Engine)
    → Sound h e
    → Sound (accepted c (call c e).0 ++ h) (call c e).1
call-Sound h c e s =
    let counts = call-Counts c e s.map (λ j. (s.kept j).has) in
    record {
      map = counts.map;
      kept = λ j. record {
        has = counts.has j;
        bound = λ p.
            let grown =
              grown-le c (call c e).0 p j (count_in p (lookup j e.mem.objects)) h
                ((s.kept j).bound p) in
            omega (arith, counts.count p j, grown);
      };
    }

read-le-total :
    (h : List Increment) (j : String) (o : Option Crdt) (v : ℕ)
    → Kept h j o
    → counter_in o ≡ some v
    → v ≤ total j h
read-le-total h j none v k p = cc
read-le-total h j (some (lww_set s)) v k p = cc
read-le-total h j (some (counter c)) v k p =
    let whole : value c ≡ v = ground arith in
    omega (arith, whole, value-sum c, sum-le-total j c.counters h k.has k.bound)

module _ {W E : Type 0} (env : Environment W E) where
  later-MessageCarries :
      (es h : List Increment) (d : Option (GoMap String))
      → MessageCarries env h d
      → MessageCarries env (es ++ h) d
  later-MessageCarries es h none c = c
  later-MessageCarries es h (some m) c = record {
    map = c.map;
    kept = λ j raw d p q. later-Kept es h j (some d) (c.kept j raw d p q);
  }

  abbrev pub AllCarry : List Increment → List Message → Type 0
  AllCarry h network = (msg : Message) → IsAmong msg network → MessageCarries env h msg.sync_data

  -- Every node and every message that was published is bounded by the history.
  pub record Invariant (h : List Increment) (s : System) : Type 0 where
    pub nodes : (i : ℕ) → Sound h (s.nodes i).engine
    pub network : AllCarry h s.network

  -- What one call of `receiveCRDTMessage` does to the engine of a bounded node.
  pub receive-Sound :
      (h : List Increment) (network : List Message) (n : Node) (w : W)
      → AllCarry h network
      → Sound h n.engine
      → FromNetwork env network w
      → Sound h (receive_crdt_message env n w).1.engine
        × Grows n.engine (receive_crdt_message env n w).1.engine
  receive-Sound h network n w carry sound from = elim (receive_crdt_message_outcome env n w) [
    | inl (msg, a, quiet, stored) ↦
        let carried = carry msg (from a.raw msg a.received a.parsed) in
        rw stored (apply_message-Sound env h msg n.engine carried sound)
    | inr (none_arrives, same) ↦ rw same (sound, λ p j. omega arith)
  ]

  module _ (law : KeepsCounts env) where
    step-Invariant :
        (h : List Increment) (s : System) (es : List Increment) (t : System)
        → Step env s es t
        → Invariant h s
        → Invariant (es ++ h) t
    step-Invariant h s es t (submit i c own) inv = record {
      nodes = λ j.
          update_elim (λ k n. Sound (es ++ h) n.engine) s.nodes i _ j
            (call-Sound h c (s.nodes i).engine (inv.nodes i))
            (λ ne. later-Sound es h _ (inv.nodes j));
      network = λ msg m. later-MessageCarries es h _ (inv.network msg m);
    }
    step-Invariant h s es t (publish i w) inv = record {
      nodes = inv.nodes;
      network = λ msg m. elim m [
        | inl e ↦
            subst (λ x. MessageCarries env h x.sync_data) (sym e)
              (sync_message-Carries env law h (s.nodes i) w (inv.nodes i))
        | inr old ↦ inv.network msg old
      ];
    }
    step-Invariant h s es t (receive i w from) inv = record {
      nodes = λ j.
          update_elim (λ k n. Sound h n.engine) s.nodes i _ j
            (receive-Sound h s.network (s.nodes i) w inv.network (inv.nodes i) from).0
            (λ ne. inv.nodes j);
      network = inv.network;
    }

    new-Sound : (cap : ℕ) → Sound [] (new_engine_mem_only cap)
    unfolding new_engine_mem_only new_mem_store lookup
    new-Sound cap = record { map = tt; kept = λ j. record { has = tt; bound = λ p. omega arith } }

    pub reach-Invariant :
        (cap : ℕ) (ids : ℕ → String) (modes : ℕ → SyncMode) {s : System} {h : List Increment}
        → Reach env cap ids modes s h
        → Invariant h s
    reach-Invariant cap ids modes start = record {
      nodes = λ i. new-Sound cap;
      network = λ msg m. elim m [ ];
    }
    reach-Invariant cap ids modes (later {s} {t} {es} {h} r st) =
        step-Invariant h s es t st (reach-Invariant cap ids modes r)

    -- In every state that nodes with new engines reach by calls of their engines, by publishing and by
    -- receiving what was published, in any order and with any loss and repetition of messages, no
    -- counter of any node reads as more than the sum of the increments of its key that were accepted
    -- by then.
    pub get_counter-le-total :
        (cap : ℕ) (ids : ℕ → String) (modes : ℕ → SyncMode) (s : System) (h : List Increment)
        (i : ℕ) (j : String) (v : ℕ)
        → Reach env cap ids modes s h
        → get_counter j (s.nodes i).engine ≡ some v
        → v ≤ total j h
    get_counter-le-total cap ids modes s h i j v r found =
        let sound = (reach-Invariant cap ids modes r).nodes i in
        read-le-total h j (lookup j (s.nodes i).engine.mem.objects) v (sound.kept j)
          (sym (get_counter-lookup (s.nodes i).engine j) ∙ found)
