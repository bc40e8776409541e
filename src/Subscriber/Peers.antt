-- ===== src/Subscriber/Peers.antt =====
-- The peers that Subscriber/Subscriber.go reports.
use gossip_pubsub.Base.{
  ℕ, ◌+◌, String, ◌≡◌, refl, Bool, false, Option, none, some, List, [], ◌∷◌, ◌++◌, ◌||◌, eq_iff,
  ltb, Option-cases, Result, ok, err, inl, inr, arith,
}
use gossip_pubsub.Base.Sorting.{elem}
use gossip_pubsub.GoMap.{GoMap, lookup, for_range, IsMap, SameMap}
use gossip_pubsub.GoMap.Laws.{insert-IsMap}
use gossip_pubsub.Clock.Merge.{lookup-copy}
use gossip_pubsub.Subscriber.{
  SubscriberMetrics, Message, Subscription, validate_message, count_received,
  count_validation_error, receive, get_metrics, add_recent, get_recent_peers,
}

elem-append : (p : String) (a b : List String) → elem p (a ++ b) ≡ (elem p a || elem p b)
elem-append p [] b = refl
elem-append p (x ∷ a) b = ground (arith, elem-append p a b)

-- The peer was seen, and after the cutoff.
abbrev pub is_recent : ℕ → ℕ → Option ℕ → Bool
is_recent now since none = false
is_recent now since (some timestamp) = ltb now (timestamp + since)

elem-for_range :
    (now since : ℕ) (m : GoMap ℕ) (found : List String) (p : String)
    → IsMap m
    → elem p (for_range (add_recent now since) m found)
      ≡ (elem p found || is_recent now since (lookup p m))
unfolding for_range add_recent lookup
elem-for_range now since [] found p h = ground arith
elem-for_range now since ((q, t) ∷ m) found p h = ground (
  arith,
  eq_iff q p,
  elem-append p found (q ∷ []),
  elem-for_range now since m found p h.1,
  elem-for_range now since m (found ++ q ∷ []) p h.1,
)

-- `GetRecentPeers` lists a peer exactly if its last message is later than `now - since`.
elem-get_recent_peers :
    (now since : ℕ) (m : SubscriberMetrics) (p : String)
    → IsMap m.unique_peers
    → elem p (get_recent_peers now since m) ≡ is_recent now since (lookup p m.unique_peers)
unfolding get_recent_peers
elem-get_recent_peers now since m p h = elem-for_range now since m.unique_peers [] p h

-- The copy of the peers that `GetMetrics` gives out reads as the original.
get_metrics-SameMap :
    (m : SubscriberMetrics)
    → IsMap m.unique_peers
    → SameMap (get_metrics m).unique_peers m.unique_peers
unfolding get_metrics
get_metrics-SameMap m h = λ p. lookup-copy m.unique_peers p h

-- A receive keeps the peers a map.
receive-IsMap :
    {W E : Type 0} (sub : Subscription W E) (answer : Result E (Option Message))
    (m : SubscriberMetrics) (w : W)
    → IsMap m.unique_peers
    → IsMap (receive sub answer m w).1.unique_peers
unfolding receive count_received count_validation_error
receive-IsMap sub (err e) m w h = h
receive-IsMap sub (ok none) m w h = h
receive-IsMap sub (ok (some msg)) m w h = elim (Option-cases (validate_message (some msg))) [
  | inl p ↦
      rw (p, receive) (insert-IsMap (sub.peer_text msg.received_from) (sub.now w) m.unique_peers h)
  | inr (e, p) ↦ rw (p, receive) h
]
