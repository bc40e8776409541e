-- ===== src/Main/Printing.antt =====
-- main.go: `Print`, `printHostAddrs`, `printStats` and `printStatsPeriodically`. Fixed headings and
-- rules are left out; a line holds the values that are printed on it.
mod Examples
use gossip_pubsub.Base.{
  ℕ, zero, suc, ◌-◌, ◌<◌, String, ◌≡◌, ◌∙◌, refl, ap, Bool, true, false, Option, none, some, List,
  [], ◌∷◌, ◌++◌, ltb, if◌then◌else◌, arith, length,
}
use gossip_pubsub.GoMap.{lookup, insert, len, for_range, IsMap}
use gossip_pubsub.Main.Messages.{MessageEntry, MessageStore, StoreStats, get_stats}

-- An entry with its age; the numbers of peers, messages and senders; times in nanoseconds.
pub data Line : Type 0 where
  total_line peers_line received_line senders_line : ℕ → Line
  no_messages : Line
  entry_line : String → MessageEntry → ℕ → Line
  span_line newest_line : Option ℕ → Line
  oldest_line : ℕ → Line
  address_line : String → String → Line

-- for key, entry := range ms.messages, at the time `now`
unfoldable pub entry_lines : ℕ → String → MessageEntry → List Line → List Line
entry_lines now key entry lines = lines ++ entry_line key entry (now - entry.timestamp) ∷ []

-- `Print`
unfoldable pub print_entries : ℕ → MessageStore → List Line
unfolding entry_lines
print_entries now store =
    let listed = for_range (entry_lines now) store (total_line (len store) ∷ []) in
    elim (len store) [ zero ↦ total_line 0 ∷ no_messages ∷ [] | suc n ↦ listed ]

-- `printHostAddrs`, for a host with the id `host_id`
unfoldable pub print_host_addrs : String → List String → List Line
print_host_addrs host_id [] = []
print_host_addrs host_id (addr ∷ addrs) = address_line addr host_id ∷ print_host_addrs host_id addrs

-- if stats["total_messages"].(int) > 0
unfoldable pub time_lines : StoreStats → List Line
time_lines stats =
    if ltb 0 stats.total_messages
    then span_line stats.time_span
      ∷ oldest_line stats.oldest_message
      ∷ newest_line stats.newest_message
      ∷ []
    else []

-- `printStats`
unfoldable pub print_stats : ℕ → ℕ → MessageStore → List Line
unfolding time_lines
print_stats peers now store =
    let stats = get_stats now store in
    peers_line peers
    ∷ received_line stats.total_messages
    ∷ senders_line stats.unique_peers
    ∷ time_lines stats

-- What the select of `printStatsPeriodically` finds: a tick, with what is read then, or the end.
pub data Event : Type 0 where
  done : Event
  tick : ℕ → ℕ → MessageStore → Event

-- `printStatsPeriodically`
unfoldable pub print_periodically : List Event → List (List Line)
unfolding print_stats
print_periodically [] = []
print_periodically (done ∷ events) = []
print_periodically (tick peers now store ∷ events) =
    print_stats peers now store ∷ print_periodically events
