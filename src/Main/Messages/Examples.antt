-- ===== src/Main/Messages/Examples.antt =====
-- Runs of the message table of main.go, and the theorems there.
use Prim.Native.String
use text.Mathlib.TextPositions.{len-append}
use gossip_pubsub.Base.{
  ℕ, ◌%◌, ◌<◌, String, ◌≡◌, refl, Bool, true, false, Option, none, some, List, [], ◌∷◌, length,
  Result, ok, err, arith,
}
use gossip_pubsub.Base.Words.{u64_mod, add64}
use gossip_pubsub.GoMap.{lookup, insert, for_range, IsMap}
use gossip_pubsub.Subscriber.{Message, Subscription, new_subscriber, process_message_with_handler}
use gossip_pubsub.Main.Messages.{
  MessageEntry, MessageStore, new_message_store, decode_seqno, summarize, later, summary, get_stats,
  store_loop, start_subscriber_with_store,
}
use gossip_pubsub.Main.Messages.Sequence.{big_endian}
use gossip_pubsub.Main.Messages.Statistics.{Describes, get_stats-Describes}
use gossip_pubsub.Main.Messages.Filling.{
  LongPeers, taken_in, Filled, start_subscriber_with_store-Filled,
}

abbrev entry : String → ℕ → MessageEntry
entry peer t = record { data_bytes = 104 ∷ []; timestamp = t; peer_id = peer; seq_no = 1 }

abbrev table : MessageStore
table = ("a-[1]", entry "a" 30) ∷ ("b-[1]", entry "b" 10) ∷ ("a-[2]", entry "a" 20) ∷ []

table-IsMap : IsMap table
unfolding lookup
table-IsMap = (refl, (refl, (refl, tt)))

stats_runs :
    (get_stats 40 table ≡ record {
      total_messages = 3;
      unique_peers = 2;
      oldest_message = 10;
      newest_message = some 30;
      time_span = some 20;
    })
    × ((get_stats 40 []).time_span ≡ none)
unfolding get_stats summary summarize later for_range insert
stats_runs = (refl, refl)

get_stats-Describes_example : Describes 40 table (get_stats 40 table)
get_stats-Describes_example = get_stats-Describes 40 table table-IsMap (omega arith)

-- The world is the list of the messages to come.
abbrev World : Type 0
World = List Message

abbrev next_message : World → Result String (Option Message) × World
next_message [] = (err "context canceled", [])
next_message (msg ∷ w) = (ok (some msg), w)

abbrev is_empty : World → Bool
is_empty [] = true
is_empty (msg ∷ w) = false

abbrev scripted : Subscription World String
scripted = record {
  next = next_message;
  now = λ w. 7;
  is_done = is_empty;
  sleep = λ w. w;
  peer_text = λ p. String.◌++◌ "12D3KooW" p;
}

abbrev bytes_text : List ℕ → String
bytes_text bytes = "[1]"

abbrev hello : String → Message
hello peer = record { data_bytes = 104 ∷ []; received_from = peer; seqno = big_endian 258 }

abbrev script : World
script = hello "a" ∷ hello "" ∷ hello "b" ∷ []

-- Two senders whose texts begin alike and whose numbers agree share an entry.
filling_runs :
    start_subscriber_with_store scripted bytes_text 5 script
    ≡ some (
      record {
        messages_received = 2;
        receive_errors = 0;
        validation_errors = 1;
        last_receive_time = 7;
        unique_peers = ("12D3KooWa", 7) ∷ ("12D3KooWb", 7) ∷ [];
      },
      record {
        world = [];
        store =
            (
              "12D3KooW-[1]",
              record { data_bytes = 104 ∷ []; timestamp = 7; peer_id = "12D3KooWb"; seq_no = 258 },
            )
            ∷ [];
        crashed = false;
      },
    )
unfolding start_subscriber_with_store store_loop process_message_with_handler add64 insert
filling_runs = refl

long_peers : LongPeers scripted bytes_text
long_peers w msg p = omega (arith, len-append "12D3KooW" msg.received_from)

start_subscriber_with_store-Filled_example :
    (f : Filled scripted bytes_text 5 new_subscriber
      (record { world = script; store = new_message_store; crashed = false })
      (taken_in scripted bytes_text 5 script))
    × (start_subscriber_with_store scripted bytes_text 5 script ≡ some (f.metrics, f.reader))
    × (f.metrics.messages_received % u64_mod
        ≡ length (taken_in scripted bytes_text 5 script) % u64_mod)
    × IsMap f.reader.store
    × ((n : ℕ) → n < u64_mod → decode_seqno 8 (big_endian n) 0 ≡ n)
start_subscriber_with_store-Filled_example =
    start_subscriber_with_store-Filled scripted bytes_text 5 script long_peers
