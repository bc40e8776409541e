-- ===== src/Sync/Gossip.antt =====
-- Any number of nodes of CRDTSync that call their engines, publish and receive in any order, over a
-- network that may lose, repeat and reorder messages.
mod Examples
pub mod Totals
pub mod Kept
pub mod Carried
pub mod Bounded
pub mod Exact
pub mod Heard
pub mod Converged
use gossip_pubsub.Base.{
  ℕ, ◌+◌, String, ◌≡◌, ◌⊎◌, Option, none, some, List, [], ◌∷◌, ◌++◌, ◌==◌, ◌&&◌, eqb, if◌then◌else◌,
  ok,
}
use gossip_pubsub.Engine.{EngineError, new_engine_mem_only}
use gossip_pubsub.Engine.Runs.{Call, add, remove, increment, call}
use gossip_pubsub.Sync.{Environment, Message, Node, SyncMode, sync_message, receive_crdt_message}

-- An increment that an engine accepted: of which node, of which key, by how much.
pub record Increment : Type 0 where
  pub node_id : String
  pub key : String
  pub delta : ℕ

-- The node that a call is made for.
abbrev pub issuer : Call → String
issuer (add now n k e ts) = n
issuer (remove now n k e ts) = n
issuer (increment now n k d ts) = n

abbrev pub accepted : Call → Option EngineError → List Increment
accepted (increment now n k d ts) none = record { node_id = n; key = k; delta = d } ∷ []
accepted (increment now n k d ts) (some r) = []
accepted (add now n k e ts) r = []
accepted (remove now n k e ts) r = []

-- What a node counted for a key, and what all nodes counted for it.
pub made : String → String → List Increment → ℕ
made p k [] = 0
made p k (e ∷ h) =
    let rest = made p k h in if (e.node_id == p) && (e.key == k) then e.delta + rest else rest

pub total : String → List Increment → ℕ
total k [] = 0
total k (e ∷ h) = let rest = total k h in if e.key == k then e.delta + rest else rest

-- The nodes by number, and all messages that were ever published.
pub record System : Type 0 where
  pub nodes : ℕ → Node
  pub network : List Message

abbrev pub update : (ℕ → Node) → ℕ → Node → ℕ → Node
update nodes i n j = if eqb i j then n else nodes j

abbrev pub IsAmong : Message → List Message → Type 0
IsAmong msg [] = ⊥
IsAmong msg (m ∷ l) = (msg ≡ m) ⊎ IsAmong msg l

module _ {W E : Type 0} (env : Environment W E) where
  -- What arrives in the world `w`, if anything that parses, was published before.
  abbrev pub FromNetwork : List Message → W → Type 0
  FromNetwork network w =
      (raw : String) (msg : Message)
      → (env.next w).0 ≡ ok raw
      → env.unmarshal_message raw ≡ ok msg
      → IsAmong msg network

  -- A call of an engine by its own node, such as the two of `AddLocalData`; a message of a node,
  -- asked for or not; and a call of `receiveCRDTMessage`, whose answer to a request is a `publish`
  -- that follows it.
  pub data Step (s : System) : List Increment → System → Type 0 where
    submit :
        (i : ℕ) (c : Call)
        → issuer c ≡ (s.nodes i).node_id
        → Step s (accepted c (call c (s.nodes i).engine).0) (record s {
          nodes = update s.nodes i (record (s.nodes i) { engine = (call c (s.nodes i).engine).1 });
        })
    publish :
        (i : ℕ) (w : W)
        → Step s [] (record s { network = sync_message env (s.nodes i) w ∷ s.network })
    receive :
        (i : ℕ) (w : W)
        → FromNetwork s.network w
        → Step s []
            (record s { nodes = update s.nodes i (receive_crdt_message env (s.nodes i) w).1 })

  -- Nodes with new engines, and nothing published.
  abbrev pub new_system : ℕ → (ℕ → String) → (ℕ → SyncMode) → System
  new_system cap ids modes = record {
    nodes = λ i. record {
      node_id = ids i;
      engine = new_engine_mem_only cap;
      msg_store = [];
      mode = modes i;
    };
    network = [];
  }

  -- The states that are reached, each with the increments accepted on the way, the latest first.
  pub data Reach (cap : ℕ) (ids : ℕ → String) (modes : ℕ → SyncMode)
      : System → List Increment → Type 0 where
    start : Reach cap ids modes (new_system cap ids modes) []
    later :
        {s t : System} {es h : List Increment}
        → Reach cap ids modes s h
        → Step s es t
        → Reach cap ids modes t (es ++ h)
