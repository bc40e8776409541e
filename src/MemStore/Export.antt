-- ===== src/MemStore/Export.antt =====
-- What `GetAllCRDTs` of the store (CRDT/MemoryStore.go) gives out: copies under the same keys that
-- read as the objects do.
use gossip_pubsub.Base.{String, ◌≡◌, refl, sym, subst, ◌∙◌, Option, none, some, []}
use gossip_pubsub.GoMap.{GoMap, lookup, for_range, IsMap}
use gossip_pubsub.GoMap.Laws.{lookup-insert}
use gossip_pubsub.GoMap.Range.{Writes, made, lookup-for_range_make}
use gossip_pubsub.Clock.{VectorClock, copy_entry}
use gossip_pubsub.Clock.Order.{LeTs}
use gossip_pubsub.Clock.Merge.{lookup-copy, copy-IsMap}
use gossip_pubsub.LwwSet
use gossip_pubsub.LwwSet.{LwwSet, contains}
use gossip_pubsub.LwwSet.Validity
use gossip_pubsub.LwwSet.Validity.{IsBelow, AllBelow}
use gossip_pubsub.Counter
use gossip_pubsub.Counter.{Counter, value}
use gossip_pubsub.Counter.Convergence
use gossip_pubsub.Crdt.{Crdt, lww_set, counter}
use gossip_pubsub.MemStore.{MemStore, export_crdt, export_object, get_all_crdts}

abbrev pub exported : String → Option Crdt → Option Crdt
exported j none = none
exported j (some c) = some (export_crdt j c)

export-Writes : Writes export_object export_crdt
unfolding export_object
export-Writes k j c r = lookup-insert k j (export_crdt k c) r

made-exported :
    (j : String) (o : Option Crdt) → made export_object export_crdt j o none ≡ exported j o
made-exported j none = refl
made-exported j (some c) = refl

-- The export holds a copy of each object under its key, and nothing else.
pub lookup-get_all_crdts :
    (s : MemStore) (j : String)
    → IsMap s.objects
    → lookup j (get_all_crdts s) ≡ exported j (lookup j s.objects)
unfolding get_all_crdts lookup
lookup-get_all_crdts s j h =
    lookup-for_range_make export_object export_crdt export-Writes s.objects [] j h
    ∙ made-exported j (lookup j s.objects)

-- The copy of a set, and of a counter, under the key j.
abbrev pub copied_set : String → LwwSet → LwwSet
copied_set j s = record {
  key = j;
  adds = for_range copy_entry s.adds [];
  removes = for_range copy_entry s.removes [];
  timestamp = for_range copy_entry s.timestamp [];
}

abbrev pub copied_counter : String → Counter → Counter
copied_counter j c = record {
  key = j;
  counters = for_range copy_entry c.counters [];
  timestamp = for_range copy_entry c.timestamp [];
}

pub export-set : (j : String) (s : LwwSet) → export_crdt j (lww_set s) ≡ lww_set (copied_set j s)
unfolding export_crdt
export-set j s = refl

pub export-counter :
    (j : String) (c : Counter) → export_crdt j (counter c) ≡ counter (copied_counter j c)
unfolding export_crdt
export-counter j c = refl

AllBelow-copied :
    (top : VectorClock) (m : GoMap VectorClock)
    → IsMap top
    → IsMap m
    → AllBelow top m
    → AllBelow (for_range copy_entry top []) (for_range copy_entry m [])
AllBelow-copied top m ht hm h = record {
  at = λ e c p.
      let old = h.at e c (sym (lookup-copy m e hm) ∙ p) in
      record {
        clock = old.clock;
        below = λ k. subst (LeTs (lookup k c)) (sym (lookup-copy top k ht)) (old.below k);
      };
}

pub copied_set-IsValid :
    (j : String) (s : LwwSet) → LwwSet.Validity.IsValid s → LwwSet.Validity.IsValid (copied_set j s)
copied_set-IsValid j s v = record {
  adds_map = copy-IsMap s.adds;
  removes_map = copy-IsMap s.removes;
  timestamp_map = copy-IsMap s.timestamp;
  adds_below = AllBelow-copied s.timestamp s.adds v.timestamp_map v.adds_map v.adds_below;
  removes_below =
      AllBelow-copied s.timestamp s.removes v.timestamp_map v.removes_map v.removes_below;
}

pub copied_counter-IsValid :
    (j : String) (c : Counter) → Counter.Convergence.IsValid (copied_counter j c)
copied_counter-IsValid j c = record {
  counters_map = copy-IsMap c.counters;
  timestamp_map = copy-IsMap c.timestamp;
}
