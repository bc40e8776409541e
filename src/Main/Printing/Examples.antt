-- ===== src/Main/Printing/Examples.antt =====
-- What main.go prints of a table.
use gossip_pubsub.Base.{◌≡◌, refl, some, [], ◌∷◌}
use gossip_pubsub.GoMap.{insert, for_range}
use gossip_pubsub.Main.Messages.{MessageEntry, MessageStore, get_stats}
use gossip_pubsub.Main.Printing.{
  total_line, peers_line, received_line, senders_line, no_messages, entry_line, span_line,
  newest_line, oldest_line, address_line, print_entries, print_host_addrs, print_stats, done, tick,
  print_periodically,
}

abbrev hello : MessageEntry
hello = record { data_bytes = 104 ∷ []; timestamp = 5; peer_id = "12D3KooW"; seq_no = 1 }

abbrev table : MessageStore
table = ("12D3KooW-1", hello) ∷ []

print_runs :
    (print_entries 9 [] ≡ total_line 0 ∷ no_messages ∷ [])
    × (print_entries 9 table ≡ total_line 1 ∷ entry_line "12D3KooW-1" hello 4 ∷ [])
    × (print_host_addrs "id" ("/ip4/1.2.3.4" ∷ []) ≡ address_line "/ip4/1.2.3.4" "id" ∷ [])
unfolding print_entries for_range print_host_addrs
print_runs = (refl, refl, refl)

stats_runs :
    print_periodically (tick 2 9 table ∷ tick 2 10 [] ∷ done ∷ tick 2 11 table ∷ [])
    ≡ (peers_line 2
        ∷ received_line 1
        ∷ senders_line 1
        ∷ span_line (some 0)
        ∷ oldest_line 5
        ∷ newest_line (some 5)
        ∷ [])
      ∷ (peers_line 2 ∷ received_line 0 ∷ senders_line 0 ∷ [])
      ∷ []
unfolding print_periodically print_stats get_stats for_range insert
stats_runs = refl
