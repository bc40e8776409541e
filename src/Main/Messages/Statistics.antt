-- ===== src/Main/Messages/Statistics.antt =====
-- What `GetStats` of main.go says of the table.
use gossip_pubsub.Base.{
  ℕ, ◌+◌, ◌-◌, ◌≤◌, ◌<◌, String, ◌≡◌, refl, sym, ap, subst, ◌∙◌, ◌⊎◌, inl, inr, Bool, true, false,
  ◌||◌, none, some, is_some, [], ◌∷◌, ◌==◌, eq_iff, ltb, if◌then◌else◌, Bool-cases, arith,
}
use gossip_pubsub.GoMap.{GoMap, lookup, insert, len, for_range, IsMap}
use gossip_pubsub.GoMap.Laws.{lookup-insert, insert-IsMap}
use gossip_pubsub.Main.Messages.{
  MessageEntry, MessageStore, Summary, later, summarize, summary, StoreStats, get_stats, span,
}

-- An entry of the table with a given time.
pub record Attains (store : MessageStore) (t : ℕ) : Type 0 where
  pub key : String
  pub entry : MessageEntry
  pub found : lookup key store ≡ some entry
  pub at : entry.timestamp ≡ t

-- No entry is outside.
abbrev pub Within : MessageStore → ℕ → ℕ → Type 0
Within store low high =
    (k : String) (e : MessageEntry)
    → lookup k store ≡ some e
    → (low ≤ e.timestamp) × (e.timestamp ≤ high)

-- The loop, from the summary `s` with a newest time to the summary `r`.
record Spans (store : MessageStore) (s r : Summary) (newest : ℕ) : Type 0 where
  last : ℕ
  newest_last : r.newest ≡ some last
  within : Within store r.oldest last
  below : r.oldest ≤ s.oldest
  above : newest ≤ last
  oldest_from : (r.oldest ≡ s.oldest) ⊎ Attains store r.oldest
  newest_from : (last ≡ newest) ⊎ Attains store last

Attains-later :
    (k : String) (e : MessageEntry) (store : MessageStore) (t : ℕ)
    → lookup k store ≡ none
    → Attains store t
    → Attains ((k, e) ∷ store) t
unfolding lookup
Attains-later k e store t fresh a = record {
  key = a.key;
  entry = a.entry;
  found = ground (arith, eq_iff k a.key, a.found);
  at = a.at;
}

Attains-first :
    (k : String) (e : MessageEntry) (store : MessageStore) → Attains ((k, e) ∷ store) e.timestamp
unfolding lookup
Attains-first k e store = record {
  key = k;
  entry = e;
  found = ground (arith, eq_iff k k);
  at = refl;
}

Within-first :
    (k : String) (e : MessageEntry) (store : MessageStore) (low high : ℕ)
    → low ≤ e.timestamp
    → e.timestamp ≤ high
    → Within store low high
    → Within ((k, e) ∷ store) low high
unfolding lookup
Within-first k e store low high below above w j f found = elim (Bool-cases (k == j)) [
  | inl p ↦
      let same : e ≡ f = ground arith in
      let time = ap (λ (x : MessageEntry). x.timestamp) same in (omega arith, omega arith)
  | inr p ↦ w j f (ground arith)
]

max_of : ℕ → ℕ → ℕ
max_of a b = if ltb a b then b else a

-- A time of the rest, or one that was chosen between `a` and the first entry's.
from_rest :
    (k : String) (e : MessageEntry) (store : MessageStore) (t a chosen : ℕ)
    → lookup k store ≡ none
    → (chosen ≡ a) ⊎ (chosen ≡ e.timestamp)
    → (t ≡ chosen) ⊎ Attains store t
    → (t ≡ a) ⊎ Attains ((k, e) ∷ store) t
from_rest k e store t a chosen fresh choice (inr found) =
    inr (Attains-later k e store t fresh found)
from_rest k e store t a chosen fresh (inl p) (inl q) = inl (q ∙ p)
from_rest k e store t a chosen fresh (inr p) (inl q) =
    inr (subst (Attains ((k, e) ∷ store)) (sym (q ∙ p)) (Attains-first k e store))

loop-Spans :
    (store : MessageStore) (s : Summary) (newest : ℕ)
    → IsMap store
    → s.newest ≡ some newest
    → Spans store s (for_range summarize store s) newest
unfolding for_range summarize later lookup max_of
loop-Spans [] s newest h p = record {
  last = newest;
  newest_last = p;
  within = λ k e q. absurd (cc q);
  below = omega arith;
  above = omega arith;
  oldest_from = inl refl;
  newest_from = inl refl;
}
loop-Spans ((k, e) ∷ store) s newest (fresh, h) p =
    let step : (summarize k e s).newest ≡ some (max_of newest e.timestamp) = rw p (ground arith) in
    let rest = loop-Spans store (summarize k e s) (max_of newest e.timestamp) h step in
    record {
      last = rest.last;
      newest_last = rest.newest_last;
      within =
          Within-first k e store _ _ (ground (arith, rest.below)) (ground (arith, rest.above))
            rest.within;
      below = ground (arith, rest.below);
      above = ground (arith, rest.above);
      oldest_from =
          from_rest k e store _ s.oldest (summarize k e s).oldest fresh (ground arith)
            rest.oldest_from;
      newest_from =
          from_rest k e store rest.last newest (max_of newest e.timestamp) fresh (ground arith)
            rest.newest_from;
    }

-- The senders of the entries.
abbrev pub is_sender : String → MessageStore → Bool
is_sender p [] = false
is_sender p ((k, e) ∷ store) = (e.peer_id == p) || is_sender p store

record Senders (store : MessageStore) (s r : GoMap Bool) : Type 0 where
  map : IsMap r
  from : (p : String) → is_some (lookup p r) ≡ (is_some (lookup p s) || is_sender p store)
  bounded : len r ≤ len s + len store
  kept : len s ≤ len r

len-insert :
    (k : String) (m : GoMap Bool)
    → (len m ≤ len (insert k true m))
      × (len (insert k true m) ≤ len m + 1)
      × (1 ≤ len (insert k true m))
unfolding insert
len-insert k [] = (omega arith, omega arith, omega arith)
len-insert k ((i, v) ∷ m) = ground (arith, len-insert k m)

loop-Senders :
    (store : MessageStore) (s : Summary)
    → IsMap s.unique_peers
    → Senders store s.unique_peers (for_range summarize store s).unique_peers
unfolding for_range summarize
loop-Senders [] s h = record {
  map = h;
  from = λ p. ground arith;
  bounded = omega arith;
  kept = omega arith;
}
loop-Senders ((k, e) ∷ store) s h =
    let rest =
      loop-Senders store (summarize k e s) (insert-IsMap e.peer_id true s.unique_peers h) in
    record {
      map = rest.map;
      from = λ p. ground (arith, rest.from p, lookup-insert e.peer_id p true s.unique_peers);
      bounded = omega (arith, rest.bounded, len-insert e.peer_id s.unique_peers);
      kept = omega (arith, rest.kept, len-insert e.peer_id s.unique_peers);
    }

-- The statistics of a table that is not empty, taken at the time `now`.
pub record Describes (now : ℕ) (store : MessageStore) (stats : StoreStats) : Type 0 where
  pub last : ℕ
  pub newest : stats.newest_message ≡ some last
  pub newest_is : Attains store last
  pub oldest_is : (stats.oldest_message ≡ now) ⊎ Attains store stats.oldest_message
  pub not_later : stats.oldest_message ≤ now
  pub within : Within store stats.oldest_message last
  pub ordered : stats.oldest_message ≤ last
  pub span : stats.time_span ≡ some (last - stats.oldest_message)
  pub total : stats.total_messages ≡ len store
  -- one entry for each sender
  pub peers : GoMap Bool
  pub peers_map : IsMap peers
  pub peers_are : (p : String) → is_some (lookup p peers) ≡ is_sender p store
  pub counted : stats.unique_peers ≡ len peers
  pub some_peer : 1 ≤ stats.unique_peers
  pub few_peers : stats.unique_peers ≤ stats.total_messages

-- For a table that is not empty, the newest time of `GetStats` is the largest of the entries', the
-- oldest is the smallest of theirs and the time of the call, the span is their difference and not
-- negative, and the number of senders counts each sender once: at least one, at most the entries.
pub get_stats-Describes :
    (now : ℕ) (store : MessageStore)
    → IsMap store
    → 0 < len store
    → Describes now store (get_stats now store)
unfolding get_stats summary for_range summarize later lookup
get_stats-Describes now [] h some_entry = absurd (omega arith)
get_stats-Describes now ((k, e) ∷ store) (fresh, h) some_entry =
    let start : Summary = record { unique_peers = []; oldest = now; newest = none } in
    let first = summarize k e start in
    let times = loop-Spans store first e.timestamp h refl in
    let peers = loop-Senders ((k, e) ∷ store) start tt in
    let after = loop-Senders store first (insert-IsMap e.peer_id true [] tt) in
    let old = from_rest k e store _ now first.oldest fresh (ground arith) times.oldest_from in
    record {
      last = times.last;
      newest = times.newest_last;
      newest_is = elim times.newest_from [
        | inl same ↦ subst (Attains ((k, e) ∷ store)) (sym same) (Attains-first k e store)
        | inr found ↦ Attains-later k e store times.last fresh found
      ];
      oldest_is = old;
      not_later = ground (arith, times.below);
      within = Within-first k e store _ _ (ground (arith, times.below)) times.above times.within;
      ordered = ground (arith, times.below, times.above);
      span = ap (span (for_range summarize store first).oldest) times.newest_last;
      total = refl;
      peers = (summary now ((k, e) ∷ store)).unique_peers;
      peers_map = peers.map;
      peers_are = λ p. ground (arith, peers.from p);
      counted = refl;
      some_peer = omega (arith, after.kept, len-insert e.peer_id []);
      few_peers = omega (arith, peers.bounded);
    }
