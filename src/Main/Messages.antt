-- ===== src/Main/Messages.antt =====
-- main.go: the table of received messages, its statistics, and the subscriber that fills it. Bytes
-- are numbers below 256, times are in nanoseconds.

mod Examples
pub mod Sequence
pub mod Statistics
pub mod Filling
use Prim.Native.String.{len as str_len, slice, ◌++◌ as text◌++◌}
use gossip_pubsub.Base.{
  ℕ, zero, suc, ◌+◌, ◌-◌, ◌*◌, ◌%◌, String, Bool, true, false, Option, none, some, List, [], ◌∷◌,
  ltb, if◌then◌else◌,
}
use gossip_pubsub.Base.Words.{u64_mod}
use gossip_pubsub.GoMap.{GoMap, insert, len, for_range}
use gossip_pubsub.Subscriber.{
  Message, Subscription, SubscriberMetrics, HandlerError, Next, stop, continue, new_subscriber,
  process_message_with_handler,
}

pub record MessageEntry : Type 0 where
  pub data_bytes : List ℕ
  pub timestamp : ℕ
  pub peer_id : String
  pub seq_no : ℕ

abbrev pub MessageStore : Type 0
MessageStore = GoMap MessageEntry

abbrev pub new_message_store : MessageStore
new_message_store = []

-- `Add`, at the time `now`
unfoldable pub add_entry : ℕ → String → List ℕ → String → ℕ → MessageStore → MessageStore
add_entry now key data_bytes peer_id seq_no store =
    insert key
      (record { data_bytes = data_bytes; timestamp = now; peer_id = peer_id; seq_no = seq_no })
      store

-- The variables of the loop of `GetStats`. For `newest`, `none` is the zero time, which is before
-- all others.
pub record Summary : Type 0 where
  pub unique_peers : GoMap Bool
  pub oldest : ℕ
  pub newest : Option ℕ

unfoldable pub later : ℕ → Option ℕ → Option ℕ
later t none = some t
later t (some newest) = if ltb newest t then some t else some newest

unfoldable pub summarize : String → MessageEntry → Summary → Summary
unfolding later
summarize key entry s = record {
  unique_peers = insert entry.peer_id true s.unique_peers;
  oldest = if ltb entry.timestamp s.oldest then entry.timestamp else s.oldest;
  newest = later entry.timestamp s.newest;
}

pub record StoreStats : Type 0 where
  pub total_messages : ℕ
  pub unique_peers : ℕ
  pub oldest_message : ℕ
  pub newest_message : Option ℕ
  -- `none` is the span from now back to the zero time
  pub time_span : Option ℕ

unfoldable pub summary : ℕ → MessageStore → Summary
unfolding summarize
summary now store =
    for_range summarize store (record { unique_peers = []; oldest = now; newest = none })

-- newestMsg.Sub(oldestMsg)
abbrev pub span : ℕ → Option ℕ → Option ℕ
span oldest none = none
span oldest (some newest) = some (newest - oldest)

unfoldable pub get_stats : ℕ → MessageStore → StoreStats
unfolding summary
get_stats now store =
    let s = summary now store in
    record {
      total_messages = len store;
      unique_peers = len s.unique_peers;
      oldest_message = s.oldest;
      newest_message = s.newest;
      time_span = span s.oldest s.newest;
    }

-- for i := 0; i < len && i < 8; i++ { seq = (seq << 8) | byte }: the low 8 bits are free.
unfoldable pub decode_seqno : ℕ → List ℕ → ℕ → ℕ
decode_seqno zero bytes seq = seq
decode_seqno (suc left) [] seq = seq
decode_seqno (suc left) (b ∷ bytes) seq = decode_seqno left bytes ((seq * 256) % u64_mod + b)

-- The world, the table, and whether a handler has panicked.
pub record Reader (W : Type 0) : Type 0 where
  pub world : W
  pub store : MessageStore
  pub crashed : Bool

-- The text of a sequence number, fmt's %d of bytes, is a parameter.
module _ {W E : Type 0} (sub : Subscription W E) (bytes_text : List ℕ → String) where
  -- The subscription, on the world beside the table.
  unfoldable pub beside : Subscription (Reader W) E
  beside = record {
    next = λ r. let (answer, w) = sub.next r.world in (answer, record r { world = w });
    now = λ r. sub.now r.world;
    is_done = λ r. sub.is_done r.world;
    sleep = λ r. record r { world = sub.sleep r.world };
    peer_text = sub.peer_text;
  }

  -- fmt.Sprintf("%s-%d", peer[:8], seqno)
  unfoldable pub entry_key : Message → String
  entry_key msg =
      text◌++◌ (slice (sub.peer_text msg.received_from) 0 8) (text◌++◌ "-" (bytes_text msg.seqno))

  unfoldable pub store_entry : ℕ → Message → MessageStore → MessageStore
  unfolding entry_key decode_seqno add_entry
  store_entry now msg store =
      add_entry now (entry_key msg) msg.data_bytes (sub.peer_text msg.received_from)
        (decode_seqno 8 msg.seqno 0) store

  -- The handler; it panics on a peer's text shorter than 8 bytes.
  unfoldable pub store_handler : Message → Reader W → Option E × Reader W
  unfolding store_entry
  store_handler msg r =
      if ltb (str_len (sub.peer_text msg.received_from)) 8
      then (none, record r { crashed = true })
      else (none, record r { store = store_entry (sub.now r.world) msg r.store })

  -- How the loop goes on after a message; `none` is a panic.
  unfoldable pub after_message : Option (HandlerError E) → Reader W → Option (Next × Reader W)
  after_message none r = if r.crashed then none else some (continue, r)
  after_message (some e) r =
      if sub.is_done r.world
      then some (stop, r)
      else some (continue, record r { world = sub.sleep r.world })

  -- The first `rounds` rounds of the loop of `startSubscriberWithStore`; `none` is a panic.
  unfoldable pub store_loop :
      ℕ → SubscriberMetrics → Reader W → Option (SubscriberMetrics × Reader W)
  unfolding beside store_handler after_message
  store_loop zero m r = some (m, r)
  store_loop (suc rounds) m r =
      let (failure, m', r') = process_message_with_handler beside store_handler m r in
      let after = after_message failure r' in
      if sub.is_done r.world then some (m, r) else elim after [
        | none ↦ none
        | some (next, r'') ↦ elim next [
          | stop ↦ some (m', r'')
          | continue ↦ store_loop rounds m' r''
        ]
      ]

  unfoldable pub start_subscriber_with_store : ℕ → W → Option (SubscriberMetrics × Reader W)
  unfolding store_loop new_subscriber
  start_subscriber_with_store rounds w =
      store_loop rounds new_subscriber
        (record { world = w; store = new_message_store; crashed = false })
