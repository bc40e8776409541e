-- ===== src/Main/Program/Releases.antt =====
-- What the process of main.go holds, starts and releases.
use mathlib.Core.List.{reverse, reverse_aux}
use gossip_pubsub.Base.{
  ◌≡◌, refl, sym, ap, ◌∙◌, Option, some, List, [], ◌∷◌, Result, inl, inr, Result-cases, arith,
}
use gossip_pubsub.Main.Addresses.{
  Bytes, parse_multiaddrs, parse_all, connect_all, connect_to_bootstraps,
}
use gossip_pubsub.Main.Addresses.Trimming.{split_and_trim-Kept}
use gossip_pubsub.Main.Program.{
  Resource, Routine, Action, acquire, release, go, Failure, End, exited, fatal, panicked, crashed,
  hung, Process, Run, goes, ends, Platform, attempt, bootstrap, release_all,
}

-- What a list of actions acquired, released and started, the latest first.
unfoldable pub acquired : List Action → List Resource
acquired [] = []
acquired (acquire r ∷ actions) = r ∷ acquired actions
acquired (a ∷ actions) = acquired actions

unfoldable pub released : List Action → List Resource
released [] = []
released (release r ∷ actions) = r ∷ released actions
released (a ∷ actions) = released actions

unfoldable pub started : List Action → List Routine
started [] = []
started (go r ∷ actions) = r ∷ started actions
started (a ∷ actions) = started actions

pub released-release_all :
    (rs : List Resource) (actions : List Action)
    → released (release_all rs actions) ≡ reverse_aux rs (released actions)
unfolding released release_all
released-release_all [] actions = refl
released-release_all (r ∷ rs) actions = released-release_all rs (release r ∷ actions)

pub acquired-release_all :
    (rs : List Resource) (actions : List Action)
    → acquired (release_all rs actions) ≡ acquired actions
unfolding acquired release_all
acquired-release_all [] actions = refl
acquired-release_all (r ∷ rs) actions = acquired-release_all rs (release r ∷ actions)

pub started-release_all :
    (rs : List Resource) (actions : List Action)
    → started (release_all rs actions) ≡ started actions
unfolding started release_all
started-release_all [] actions = refl
started-release_all (r ∷ rs) actions = started-release_all rs (release r ∷ actions)

-- What was done before the last releases.
unfoldable pub before_releases : List Action → List Action
before_releases [] = []
before_releases (release r ∷ actions) = before_releases actions
before_releases (a ∷ actions) = a ∷ actions

pub before_releases-release_all :
    (rs : List Resource) (actions : List Action)
    → before_releases (release_all rs actions) ≡ before_releases actions
unfolding before_releases release_all
before_releases-release_all [] actions = refl
before_releases-release_all (r ∷ rs) actions = before_releases-release_all rs (release r ∷ actions)

-- All that was acquired is deferred, and nothing is released; the routines `rs` run.
pub record Holds {W : Type 0} (rs : List Routine) (p : Process W) : Type 0 where
  pub deferred : acquired p.actions ≡ p.deferred
  pub kept : released p.actions ≡ []
  pub running : started p.actions ≡ rs

-- The deferred calls release what was acquired, the latest first.
pub released_in_order :
    {W : Type 0} (p : Process W)
    → acquired p.actions ≡ p.deferred
    → released p.actions ≡ []
    → released (release_all p.deferred p.actions)
      ≡ reverse (acquired (release_all p.deferred p.actions))
released_in_order p deferred kept =
    released-release_all p.deferred p.actions
    ∙ ap (reverse_aux p.deferred) kept
    ∙ ap reverse (sym (acquired-release_all p.deferred p.actions ∙ deferred))

pub moved :
    {W : Type 0} (rs : List Routine) (p : Process W) (w : W)
    → Holds rs p
    → Holds rs (record p { world = w })
moved rs p w h = record { deferred = h.deferred; kept = h.kept; running = h.running }

-- The bootstrap list is worked through to its end.
connect_to_bootstraps-some :
    {W A I E : Type 0} (addr_info : A → Result E I) (connect : I → W → Option E × W)
    (new_multiaddr : Bytes → Result E A) (addrs : Bytes) (w : W)
    → (w' : W) × (connect_to_bootstraps addr_info connect new_multiaddr addrs w ≡ some w')
unfolding connect_to_bootstraps parse_multiaddrs
connect_to_bootstraps-some addr_info connect new_multiaddr addrs w =
    let (parts, kept, returned, joined, lacking, k) =
      split_and_trim-Kept addrs (44 ∷ []) (omega arith) in
    (
      connect_all addr_info connect (parse_all new_multiaddr kept) w,
      rw (returned, connect_to_bootstraps, parse_multiaddrs) refl,
    )

module _ {W E : Type 0} (Shows Panics Crashes : Type 0) where
  -- A part of a program that ends early has released nothing. It ends by os.Exit only if `Shows`, and
  -- then with no routine running, by a panic only if
  -- `Panics`, by that of another goroutine only if `Crashes`, and never by a loop without end.
  abbrev pub EndsEarly : End E → Process W → Type 0
  EndsEarly exited p = (released p.actions ≡ []) × Shows × (started p.actions ≡ [])
  EndsEarly (fatal failure) p = released p.actions ≡ []
  EndsEarly panicked p = (released p.actions ≡ []) × Panics × (acquired p.actions ≡ p.deferred)
  EndsEarly crashed p = (released p.actions ≡ []) × Crashes
  EndsEarly hung p = ⊥

  -- A postcondition of one part of a program.
  abbrev pub Post : {A : Type 0} → (A → Process W → Type 0) → Run W E A → Type 0
  Post Q (goes a p) = Q a p
  Post Q (ends e p) = EndsEarly e p

  pub bind-Post :
      {A B : Type 0} (Q : A → Process W → Type 0) (R : B → Process W → Type 0) (m : Run W E A)
      (f : A → Process W → Run W E B)
      → Post Q m
      → ((a : A) (p : Process W) → Q a p → Post R (f a p))
      → Post R (elim m [ goes a q ↦ f a q | ends e q ↦ ends e q ])
  bind-Post Q R (goes a p) f h k = k a p h
  bind-Post Q R (ends e p) f h k = h

  attempt-Post :
      {A X : Type 0} (rs : List Routine) (call : W → Result X A × W) (failed : X → Failure E)
      (p : Process W)
      → Holds rs p
      → Post (λ (a : A) q. Holds rs q) (attempt call failed p)
  unfolding attempt
  attempt-Post rs call failed p h = elim (Result-cases (call p.world).0) [
    | inl (x, q) ↦ rw (q, attempt) (h.kept)
    | inr (a, q) ↦ rw (q, attempt) (moved rs p _ h)
  ]

  -- A call that may end the program, and what follows it.
  pub attempt_then :
      {A B X : Type 0} (rs : List Routine) (R : B → Process W → Type 0) (call : W → Result X A × W)
      (failed : X → Failure E) (f : A → Process W → Run W E B) (p : Process W)
      → Holds rs p
      → ((a : A) (q : Process W) → Holds rs q → Post R (f a q))
      → Post R (elim (attempt call failed p) [ goes a q ↦ f a q | ends e q ↦ ends e q ])
  attempt_then rs R call failed f p holds next =
      bind-Post (λ a q. Holds rs q) R (attempt call failed p) f
        (attempt-Post rs call failed p holds) next

  pub bootstrap-Post :
      {K H P T A I : Type 0} (rs : List Routine) (platform : Platform W K E H P T A I) (h : H)
      (addrs : Bytes) (p : Process W)
      → Holds rs p
      → Post (λ (u : Unit {0}) q. Holds rs q) (bootstrap platform h addrs p)
  unfolding bootstrap
  bootstrap-Post rs platform h [] p holds = holds
  bootstrap-Post rs platform h (c ∷ addrs) p holds =
      let (w, q) =
        connect_to_bootstraps-some platform.addr_info (platform.connect h) platform.new_multiaddr
          (c ∷ addrs) p.world in
      rw (q, bootstrap) (moved rs p w holds)
