-- ===== src/Publisher.antt =====
-- Publisher/Publisher.go: publishing to a topic, its metrics, batches and retries.
-- Metrics are int64 counters, kept as their 64 bits. Counts of a slice's elements and of its bytes
-- stay below 2^63. `maxRetries` is not negative.
mod Examples
pub mod Batch
pub mod Retry
pub mod Loop
use Prim.Native.String.{len as str_len, ◌++◌ as text◌++◌}
use gossip_pubsub.Base.{
  length, ℕ, zero, suc, ◌+◌, ◌*◌, ◌%◌, ◌^◌, String, ◌≡◌, Bool, Option, none, some, List, [], ◌∷◌,
  ◌++◌, ltb, eqb, if◌then◌else◌,
}
use gossip_pubsub.Base.Words.{u64_mod, add64}

-- The code outside the repository: `W` is the state of the world, `E` the errors.
pub record Network (W E : Type 0) : Type 0 where
  -- topic.Publish(ctx, data)
  pub publish : String → W → Option E × W
  -- time.Now().UnixNano()
  pub now : W → ℕ
  -- select between <-ctx.Done() and <-time.After(d): `some` is ctx.Err()
  pub wait : ℕ → W → Option E × W
  -- fmt.Sprintf of a counter, and time.Now().Format(time.RFC3339Nano)
  pub decimal : ℕ → String
  pub timestamp : W → String

pub record PublisherMetrics : Type 0 where
  pub messages_published : ℕ
  pub publish_errors : ℕ
  pub last_publish_time : ℕ
  pub bytes_published : ℕ

unfoldable pub new_publisher : PublisherMetrics
new_publisher = record {
  messages_published = 0;
  publish_errors = 0;
  last_publish_time = 0;
  bytes_published = 0;
}

-- atomic.AddInt64(&p.metrics.PublishErrors, 1)
unfoldable pub count_error : PublisherMetrics → PublisherMetrics
count_error m = record m { publish_errors = add64 m.publish_errors 1 }

-- The three updates that follow `messages` accepted publishes of `bytes` bytes.
unfoldable pub count_published : ℕ → ℕ → ℕ → PublisherMetrics → PublisherMetrics
count_published messages bytes now m = record m {
  messages_published = add64 m.messages_published messages;
  bytes_published = add64 m.bytes_published bytes;
  last_publish_time = now;
}

-- `none` is the zero time.
unfoldable pub get_last_publish_time : PublisherMetrics → Option ℕ
get_last_publish_time m = if eqb m.last_publish_time 0 then none else some m.last_publish_time

-- The error of one message of a batch: its index, its text and the topic's error.
pub record Failure (E : Type 0) : Type 0 where
  pub index : ℕ
  pub message : String
  pub cause : E

pub record BatchError (E : Type 0) : Type 0 where
  pub succeeded : ℕ
  pub total : ℕ
  pub failures : List (Failure E)

pub data RetryError (E : Type 0) : Type 0 where
  cancelled : E → RetryError E
  -- failed after maxRetries retries, with the last error
  exhausted : ℕ → Option E → RetryError E

-- time.Duration(1<<uint(attempt)) * 100 * time.Millisecond
unfoldable pub backoff : ℕ → ℕ
backoff attempt = (2 ^ attempt * 100000000) % u64_mod

-- What the loop of `PublishBatch` builds.
pub record BatchState (W E : Type 0) : Type 0 where
  pub errors : List (Failure E)
  pub success_count : ℕ
  pub total_bytes : ℕ
  pub metrics : PublisherMetrics
  pub world : W

-- What `run` waits for: ctx.Done() or the ticker.
pub data Signal : Type 0 where
  done tick : Signal

-- if err := …; err != nil { … } else { counter++ }
unfoldable pub settle : {E : Type 0} → Option E → ℕ → PublisherMetrics → ℕ × PublisherMetrics
unfolding count_error add64
settle (some e) counter m = (counter, count_error m)
settle none counter m = (add64 counter 1, m)

module _ {W E : Type 0} (net : Network W E) where
  unfoldable pub message_text : ℕ → W → String
  message_text counter w =
      text◌++◌ "message-" (text◌++◌ (net.decimal counter) (text◌++◌ " @ " (net.timestamp w)))

  -- The error, if any, the metrics and the world after the call.
  unfoldable pub publish_message : ℕ → PublisherMetrics → W → Option E × PublisherMetrics × W
  unfolding message_text count_published
  publish_message counter m w =
      let msg = message_text counter w in
      let (failure, w') = net.publish msg w in
      elim failure [
        | some e ↦ (some e, m, w')
        | none ↦ (none, count_published 1 (str_len msg) (net.now w') m, w')
      ]

  unfoldable pub publish_custom_message :
      String → PublisherMetrics → W → Option E × PublisherMetrics × W
  unfolding count_published count_error
  publish_custom_message message m w =
      let (failure, w') = net.publish message w in
      elim failure [
        | some e ↦ (some e, count_error m, w')
        | none ↦ (none, count_published 1 (str_len message) (net.now w') m, w')
      ]

  -- The loop of `run`, with its counter; `done` ends it.
  unfoldable pub run_loop : List Signal → ℕ → PublisherMetrics → W → ℕ × PublisherMetrics × W
  unfolding publish_message settle
  run_loop [] counter m w = (counter, m, w)
  run_loop (done ∷ signals) counter m w = (counter, m, w)
  run_loop (tick ∷ signals) counter m w =
      let (failure, m', w') = publish_message counter m w in
      let (counter', m'') = settle failure counter m' in run_loop signals counter' m'' w'

  -- `run` with its interval; `none` is the panic of time.NewTicker on one that is not positive (0).
  unfoldable pub run : ℕ → List Signal → PublisherMetrics → W → Option (ℕ × PublisherMetrics × W)
  unfolding run_loop
  run interval signals m w = if ltb 0 interval then some (run_loop signals 0 m w) else none

  -- One message of a batch.
  unfoldable pub batch_message : ℕ → String → BatchState W E → BatchState W E
  unfolding count_error
  batch_message i msg s =
      let (failure, w') = net.publish msg s.world in
      elim failure [
        | some e ↦ record s {
          errors = s.errors ++ record { index = i; message = msg; cause = e } ∷ [];
          metrics = count_error s.metrics;
          world = w';
        }
        | none ↦ record s {
          success_count = s.success_count + 1;
          total_bytes = s.total_bytes + str_len msg;
          world = w';
        }
      ]

  -- for i, msg := range messages
  unfoldable pub batch_loop : ℕ → List String → BatchState W E → BatchState W E
  unfolding batch_message
  batch_loop i [] s = s
  batch_loop i (msg ∷ messages) s = batch_loop (i + 1) messages (batch_message i msg s)

  unfoldable pub publish_batch :
      List String → PublisherMetrics → W → Option (BatchError E) × PublisherMetrics × W
  unfolding batch_loop count_published
  publish_batch messages m w =
      let start : BatchState W E = record {
        errors = [];
        success_count = 0;
        total_bytes = 0;
        metrics = m;
        world = w;
      } in
      let s = batch_loop 0 messages start in
      let metrics =
        if ltb 0 s.success_count
        then count_published s.success_count s.total_bytes (net.now s.world) s.metrics
        else s.metrics in
      let failure =
        if ltb 0 (length s.errors)
        then some
            (record { succeeded = s.success_count; total = length messages; failures = s.errors })
        else none in
      (failure, metrics, s.world)

  -- for attempt := …; attempt <= maxRetries; attempt++, with `left` = maxRetries + 1 - attempt
  unfoldable pub retry_loop :
      String
      → ℕ
      → ℕ
      → ℕ
      → Option E
      → PublisherMetrics
      → W
      → Option (RetryError E) × PublisherMetrics × W
  unfolding backoff count_published count_error
  retry_loop message max_retries zero attempt last_err m w =
      (some (exhausted max_retries last_err), count_error m, w)
  retry_loop message max_retries (suc left) attempt last_err m w =
      let (failure, w') = net.publish message w in
      elim failure [
        | none ↦ (none, count_published 1 (str_len message) (net.now w') m, w')
        | some e ↦
            if ltb attempt max_retries
            then (let (stopped, w'') = net.wait (backoff attempt) w' in
                elim stopped [
                  | some c ↦ (some (cancelled c), m, w'')
                  | none ↦ retry_loop message max_retries left (attempt + 1) (some e) m w''
                ])
            else retry_loop message max_retries left (attempt + 1) (some e) m w'
      ]

  unfoldable pub publish_with_retry :
      String → ℕ → PublisherMetrics → W → Option (RetryError E) × PublisherMetrics × W
  unfolding retry_loop
  publish_with_retry message max_retries m w =
      retry_loop message max_retries (max_retries + 1) 0 none m w
