-- ===== src/Main/Program.antt =====
-- main.go and main_crdt.go: what the programs share: the flags, the resources that `defer` releases,
-- and how a program ends. A process keeps a list of what it did, the latest first. Logging is left
-- out.
mod Examples
pub mod Node
pub mod CrdtNode
pub mod Releases
pub mod Joined
pub mod Outcome
pub mod CrdtOutcome
use gossip_pubsub.Base.{
  ℕ, ◌*◌, String, Bool, true, false, Option, none, some, List, [], ◌∷◌, ◌++◌, Result, ok, err,
  if◌then◌else◌,
}
use gossip_pubsub.Peer.{System}
use gossip_pubsub.Main.Addresses.{Bytes, connect_to_bootstraps}
use gossip_pubsub.Main.Keys.{HostError}
use gossip_pubsub.Sync.Lifecycle.{StartError}

-- The values of the flags; durations are in nanoseconds, and one that is not positive is 0.
pub record Flags : Type 0 where
  pub mode : String
  pub port : ℕ
  pub bootstraps : Bytes
  pub topic_name : String
  pub publish_interval : ℕ
  pub show_addrs : Bool
  pub print_store : Bool
  pub key_file : String
  pub start_crdt : Bool
  pub crdt_port : ℕ
  pub crdt_topic : String
  pub crdt_interval : ℕ
  pub crdt_mode : String
  pub crdt_print_store : Bool

abbrev pub default_flags : Flags
default_flags = record {
  mode = "both";
  port = 0;
  bootstraps = [];
  topic_name = "gossip-performance-test";
  publish_interval = 1000000000;
  show_addrs = false;
  print_store = false;
  key_file = "";
  start_crdt = false;
  crdt_port = 4010;
  crdt_topic = "crdt-topic";
  crdt_interval = 7 * 1000000000;
  crdt_mode = "both";
  crdt_print_store = false;
}

pub data Resource : Type 0 where
  context host topic subscription : Resource

pub data Routine : Type 0 where
  publisher subscriber stats_printer discovery : Routine

-- `cancel` is a call of cancel() that is not deferred; `wait` is wg.Wait().
pub data Action : Type 0 where
  acquire release : Resource → Action
  go : Routine → Action
  sleep : ℕ → Action
  await_signal print_messages cancel wait : Action

pub data Failure (E : Type 0) : Type 0 where
  host_failed : HostError E → Failure E
  pubsub_failed join_failed subscribe_failed : E → Failure E
  start_failed : StartError E → Failure E

-- How a process ends that does not return from its main function: os.Exit(0), log.Fatalf, a panic
-- of the main function, a panic of another goroutine, and a loop without end.
pub data End (E : Type 0) : Type 0 where
  exited : End E
  fatal : Failure E → End E
  panicked : End E
  crashed : End E
  hung : End E

pub record Process (W : Type 0) : Type 0 where
  pub world : W
  pub actions : List Action
  -- the resources of the deferred calls, the latest first
  pub deferred : List Resource

pub data Run (W E A : Type 0) : Type 0 where
  goes : A → Process W → Run W E A
  ends : End E → Process W → Run W E A

-- The code outside the repository: libp2p, pubsub, multiaddr, signals and sleeping.
pub record Platform (W K E H P T A I : Type 0) : Type 0 where
  pub sys : System W K E
  -- libp2p.New with a port and an identity
  pub new_host : ℕ → K → W → Result E H × W
  pub new_multiaddr : Bytes → Result E A
  pub addr_info : A → Result E I
  pub connect : H → I → W → Option E × W
  pub new_gossip_sub : H → W → Result E P × W
  pub join : P → String → W → Result E T × W
  pub subscribe : T → W → Option E × W
  -- time.Sleep, and <-sigCh
  pub sleep_for : ℕ → W → W
  pub next_signal : W → W
  -- whether a goroutine that handles received messages panics while the main function waits
  pub handler_panics : W → Bool

-- What the deferred calls do, the latest first.
unfoldable pub release_all : List Resource → List Action → List Action
release_all [] actions = actions
release_all (r ∷ deferred) actions = release_all deferred (release r ∷ actions)

abbrev pub released_process : {W : Type 0} → Process W → Process W
released_process p = record p { actions = release_all p.deferred p.actions; deferred = [] }

abbrev pub new_process : {W : Type 0} → W → Process W
new_process w = record { world = w; actions = []; deferred = [] }

module _ {W E : Type 0} where
  infixl 5 ◌>>=◌ ◌>>◌
  abbrev pub ◌>>=◌ :
      {A B : Type 0} → (Process W → Run W E A) → (A → Process W → Run W E B) → Process W → Run W E B
  ◌>>=◌ m f p = elim (m p) [ goes a q ↦ f a q | ends e q ↦ ends e q ]

  abbrev pub ◌>>◌ :
      {B : Type 0}
      → (Process W → Run W E (Unit {0}))
      → (Process W → Run W E B)
      → Process W
      → Run W E B
  ◌>>◌ m k = m >>= λ x. k

  abbrev pub nothing : Process W → Run W E (Unit {0})
  nothing p = goes tt p

  abbrev pub when : Bool → (Process W → Run W E (Unit {0})) → Process W → Run W E (Unit {0})
  when true m = m
  when false m = nothing

  abbrev pub act : Action → Process W → Run W E (Unit {0})
  act a p = goes tt (record p { actions = a ∷ p.actions })

  -- A resource that was acquired, and the deferred call that releases it.
  abbrev pub hold : Resource → Process W → Run W E (Unit {0})
  hold r p = goes tt (record p { actions = acquire r ∷ p.actions; deferred = r ∷ p.deferred })

  -- os.Exit(0), if the flag says so
  abbrev pub exit_if : Bool → Process W → Run W E (Unit {0})
  exit_if true p = ends exited p
  exit_if false p = goes tt p

  -- A panic of a goroutine, if the flag says so, ends the process at once: while the main function
  -- waits, so that it comes before any deferred call.
  abbrev pub crash_if : Bool → Process W → Run W E (Unit {0})
  crash_if true p = ends crashed p
  crash_if false p = goes tt p

  -- What happens outside while the main function goes on or waits.
  abbrev pub outside : (W → W) → Process W → Run W E (Unit {0})
  outside f p = goes tt (record p { world = f p.world })

  -- A call whose error ends the program by log.Fatalf.
  unfoldable pub attempt :
      {A X : Type 0} → (W → Result X A × W) → (X → Failure E) → Process W → Run W E A
  attempt call failed p =
      let (answer, w) = call p.world in
      elim answer [
        | err x ↦ ends (fatal (failed x)) (record p { world = w })
        | ok a ↦ goes a (record p { world = w })
      ]

  -- Connect to bootstrap peers if provided.
  unfoldable pub bootstrap :
      {K H P T A I : Type 0} → Platform W K E H P T A I → H → Bytes → Process W → Run W E (Unit {0})
  bootstrap platform h [] p = goes tt p
  bootstrap platform h (c ∷ addrs) p =
      elim (connect_to_bootstraps platform.addr_info (platform.connect h) platform.new_multiaddr
        (c ∷ addrs) p.world) [ none ↦ ends hung p | some w ↦ goes tt (record p { world = w }) ]

  -- A return and a panic of the main function run the deferred calls; no other end does.
  unfoldable pub finish : {A : Type 0} → Run W E A → Result (End E) A × Process W
  unfolding release_all
  finish (goes a p) = (ok a, released_process p)
  finish (ends exited p) = (err exited, p)
  finish (ends (fatal failure) p) = (err (fatal failure), p)
  finish (ends panicked p) = (err panicked, released_process p)
  finish (ends crashed p) = (err crashed, p)
  finish (ends hung p) = (err hung, p)
