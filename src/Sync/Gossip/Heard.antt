-- ===== src/Sync/Gossip/Heard.antt =====
-- What a sequence of received messages of CRDTSync brings to the counts of a node.
use gossip_pubsub.Base.{
  ◌≤◌, String, ◌≡◌, refl, subst, ap, ◌∙◌, Option, none, some, List, [], ◌∷◌, inl, inr, Bool-cases,
  Option-cases, arith, ◌⊎◌, ◌==◌,
}
use gossip_pubsub.GoMap.{GoMap, lookup, IsMap}
use gossip_pubsub.Clock.Merge.{copy-IsMap, lookup-copy}
use gossip_pubsub.Counter.{Counter, count_at}
use gossip_pubsub.Crdt
use gossip_pubsub.Crdt.{Crdt, lww_set, counter}
use gossip_pubsub.MemStore.{export_crdt}
use gossip_pubsub.MemStore.Export.{exported, export-set, copied_counter}
use gossip_pubsub.Engine.{Engine}
use gossip_pubsub.Engine.Counted.{count_in, HasCounts}
use gossip_pubsub.Sync.{
  Environment, Message, Node, sync_message, apply_message, decode_crdt, receive_crdt_message,
}
use gossip_pubsub.Sync.Applied.{received, applied}
use gossip_pubsub.Sync.Delivered.{sync_message_delivers}
use gossip_pubsub.Sync.Exchange.{ReadsBack, received_counter}
use gossip_pubsub.Sync.Gossip.{Increment, FromNetwork}
use gossip_pubsub.Sync.Gossip.Kept.{exported-count, count-merge_with_theirs, count_of_entry}
use gossip_pubsub.Sync.Gossip.Carried.{Sound, Grows, MessageCarries, export-lookup, at_key}
use gossip_pubsub.Sync.Gossip.Bounded.{AllCarry, receive-Sound}
use gossip_pubsub.Sync.Received.{Arrives, receive_crdt_message_outcome}

abbrev pub HoldsSet : Option Crdt → Type 0
HoldsSet none = ⊥
HoldsSet (some (lww_set s)) = Unit
HoldsSet (some (counter c)) = ⊥

-- A set is merged with sets only.
received-HoldsSet :
    (j : String) (old : Option Crdt) (remote : Crdt)
    → HoldsSet old
    → HoldsSet (received (exported j old) old remote)
unfolding Crdt.merge
received-HoldsSet j none remote h = elim h [ ]
received-HoldsSet j (some (counter c)) remote h = elim h [ ]
received-HoldsSet j (some (lww_set s)) (counter o) h = rw export-set tt
received-HoldsSet j (some (lww_set s)) (lww_set o) h =
    rw export-set (elim (Bool-cases (j == o.key)) [
      | inl same ↦ rw (same, received) tt
      | inr other ↦ rw (other, received) tt
    ])

received-Heard :
    (j p : String) (old : Option Crdt) (x : Counter)
    → HasCounts old
    → IsMap x.counters
    → HoldsSet (received (exported j old) old (export_crdt j (counter x)))
      ⊎ (count_at p x.counters
          ≤ count_in p (received (exported j old) old (export_crdt j (counter x))))
received-Heard j p none x h map = inr (omega (arith, exported-count j p (some (counter x)) map))
received-Heard j p (some (lww_set s)) x h map =
    inl (received-HoldsSet j (some (lww_set s)) (export_crdt j (counter x)) tt)
received-Heard j p (some (counter y)) x h map =
    let mine = copied_counter j y in
    let theirs = copied_counter j x in
    let larger =
      count-merge_with_theirs p mine theirs (copy-IsMap y.counters) (copy-IsMap x.counters) in
    inr (
      rw (received_counter j (some (counter y)) x y)
        (omega (arith, larger, ap count_of_entry (lookup-copy x.counters p map))))

-- At most one message arrives in a world.
Arrives-unique :
    {W E : Type 0} (env : Environment W E) (n : Node) (w : W) {a b : Message}
    → Arrives env n w a
    → Arrives env n w b
    → a ≡ b
Arrives-unique env n w p q =
    let raws : p.raw ≡ q.raw = cc (p.received, q.received) in cc (p.parsed, q.parsed, raws)

module _ {W E : Type 0} (env : Environment W E) where
  -- `receiveCRDTMessage` once in each of the worlds.
  abbrev pub receive_all : List W → Node → Node
  receive_all [] n = n
  receive_all (w ∷ ws) n = receive_all ws (receive_crdt_message env n w).1

  -- Whatever arrives was published before.
  abbrev pub AllFrom : List Message → List W → Type 0
  AllFrom network [] = Unit
  AllFrom network (w ∷ ws) = FromNetwork env network w × AllFrom network ws

  -- The message arrives in one of the calls.
  abbrev pub Receives : Node → List W → Message → Type 0
  Receives n [] msg = ⊥
  Receives n (w ∷ ws) msg = Arrives env n w msg ⊎ Receives (receive_crdt_message env n w).1 ws msg

  module _ (h : List Increment) (j : String) where
    applied-HoldsSet :
        (o : Option String) (old : Option Crdt)
        → HoldsSet old
        → HoldsSet (applied env o (exported j old) old)
    applied-HoldsSet none old s = s
    applied-HoldsSet (some raw) old s = elim (Option-cases (decode_crdt env raw)) [
      | inl r ↦ rw (r, applied) s
      | inr (remote, r) ↦ rw (r, applied) (received-HoldsSet j old remote s)
    ]

    apply_message-HoldsSet :
        (msg : Message) (e : Engine)
        → MessageCarries env h msg.sync_data
        → Sound h e
        → HoldsSet (lookup j e.mem.objects)
        → HoldsSet (lookup j (apply_message env msg e).mem.objects)
    unfolding apply_message
    apply_message-HoldsSet msg e c s set = go msg.sync_data refl c
      where
        go :
            (o : Option (GoMap String))
            → msg.sync_data ≡ o
            → MessageCarries env h o
            → HoldsSet (lookup j (apply_message env msg e).mem.objects)
        go none q d = rw (q, apply_message) set
        go (some m) q d = elim (Bool-cases (msg.kind == "sync")) [
          | inl sync ↦
              rw (q, sync, apply_message)
                (rw (at_key env h m e d s j)
                  (applied-HoldsSet (lookup j m) (lookup j e.mem.objects) set))
          | inr other ↦ rw (q, other, apply_message) set
        ]

    receive-HoldsSet :
        (network : List Message) (n : Node) (w : W)
        → AllCarry env h network
        → Sound h n.engine
        → FromNetwork env network w
        → HoldsSet (lookup j n.engine.mem.objects)
        → HoldsSet (lookup j (receive_crdt_message env n w).1.engine.mem.objects)
    receive-HoldsSet network n w carry s from set = elim (receive_crdt_message_outcome env n w) [
      | inl (msg, a, quiet, stored) ↦ rw stored (
          apply_message-HoldsSet msg n.engine (carry msg (from a.raw msg a.received a.parsed)) s
            set)
      | inr (none_arrives, same) ↦ rw same set
    ]

    module _ (network : List Message) (carry : AllCarry env h network) where
      pub receive_all-Sound :
          (ws : List W) (n : Node)
          → AllFrom network ws
          → Sound h n.engine
          → Sound h (receive_all ws n).engine × Grows n.engine (receive_all ws n).engine
      receive_all-Sound [] n from s = (s, λ p k. omega arith)
      receive_all-Sound (w ∷ ws) n from s =
          let (sound, grows) = receive-Sound env h network n w carry s from.0 in
          let (sound', grows') =
            receive_all-Sound ws (receive_crdt_message env n w).1 from.1 sound in
          (sound', λ p k. omega (arith, grows p k, grows' p k))

      receive_all-HoldsSet :
          (ws : List W) (n : Node)
          → AllFrom network ws
          → Sound h n.engine
          → HoldsSet (lookup j n.engine.mem.objects)
          → HoldsSet (lookup j (receive_all ws n).engine.mem.objects)
      receive_all-HoldsSet [] n from s set = set
      receive_all-HoldsSet (w ∷ ws) n from s set =
          receive_all-HoldsSet ws (receive_crdt_message env n w).1 from.1
            (receive-Sound env h network n w carry s from.0).0
            (receive-HoldsSet network n w carry s from.0 set)

    module _ (n : Node) (w : W) (x : Counter) (sound : Sound h n.engine)
        (held : lookup j n.engine.mem.objects ≡ some (counter x))
        (back : ReadsBack env (export_crdt j (counter x))) where
      -- One message brings the receiver to the counts of its sender, unless it holds a set.
      apply_message-Heard :
          (e : Engine) (p : String)
          → Sound h e
          → HoldsSet (lookup j (apply_message env (sync_message env n w) e).mem.objects)
            ⊎ (count_at p x.counters
                ≤ count_in p (lookup j (apply_message env (sync_message env n w) e).mem.objects))
      apply_message-Heard e p s =
          let old = lookup j e.mem.objects in
          let map : IsMap x.counters = subst HasCounts held (sound.kept j).has in
          let at =
            sync_message_delivers env n w e j back.raw (export_crdt j (counter x))
              (export_crdt j (counter x))
              (export-lookup n.engine j sound.map ∙ ap (exported j) held) back.marshals
              back.unmarshals
            ∙ ap (λ o. received o old (export_crdt j (counter x))) (export-lookup e j s.map) in
          rw at (received-Heard j p old x (s.kept j).has map)

      abbrev Heard : String → Engine → Type 0
      Heard p e =
          HoldsSet (lookup j e.mem.objects)
          ⊎ (count_at p x.counters ≤ count_in p (lookup j e.mem.objects))

      receive-Heard :
          (b : Node) (v : W) (p : String)
          → Sound h b.engine
          → Arrives env b v (sync_message env n w)
          → Heard p (receive_crdt_message env b v).1.engine
      receive-Heard b v p s a = elim (receive_crdt_message_outcome env b v) [
        | inl (msg, a', quiet, stored) ↦
            let same : msg ≡ sync_message env n w = Arrives-unique env b v a' a in
            rw stored (rw same (apply_message-Heard b.engine p s))
        | inr (none_arrives, same) ↦ absurd (none_arrives (sync_message env n w) a)
      ]

      -- So does a sequence of calls in which it arrives.
      pub receive_all-Heard :
          (network : List Message) (ws : List W) (b : Node) (p : String)
          → AllCarry env h network
          → AllFrom network ws
          → Sound h b.engine
          → Receives b ws (sync_message env n w)
          → Heard p (receive_all ws b).engine
      receive_all-Heard network [] b p carry from s m = elim m [ ]
      receive_all-Heard network (v ∷ ws) b p carry from s (inr m) =
          receive_all-Heard network ws (receive_crdt_message env b v).1 p carry from.1
            (receive-Sound env h network b v carry s from.0).0 m
      receive_all-Heard network (v ∷ ws) b p carry from s (inl a) =
          let b' = (receive_crdt_message env b v).1 in
          let s' = (receive-Sound env h network b v carry s from.0).0 in
          elim (receive-Heard b v p s a) [
            | inl set ↦ inl (receive_all-HoldsSet network carry ws b' from.1 s' set)
            | inr le ↦
                inr (omega (arith, le, (receive_all-Sound network carry ws b' from.1 s').1 p j))
          ]
