-- ===== src/Clock/Swapped.antt =====
-- Two calls of `LWWSet.Merge` of CRDT/crdt.go that choose between the same two clocks, with the
-- clocks in opposite places: those of two replicas. Go's `range` takes the entries of a map in an
-- order of its own in every call, so one clock stands as two lists with the same entries.
use gossip_pubsub.Base.{
  ℕ, ◌<◌, String, ◌≡◌, ◌≢◌, refl, sym, ◌∙◌, ◌⊎◌, ◌↔◌, inl, inr, some, if◌then◌else◌, Bool-cases,
  arith,
}
use gossip_pubsub.Base.Strings.{str_lt, str_lt_asymm, str_lt_total}
use gossip_pubsub.GoMap.{lookup, IsMap, SameMap}
use gossip_pubsub.Clock.{VectorClock, unordered, compare, extract_node_id, resolve}
use gossip_pubsub.Clock.Comparing.{compare_cong}
use gossip_pubsub.Clock.TieBreak.{resolve_cases, extract_node_id_unique}

-- The node has a larger counter than all others.
pub record Leads (k : String) (c : VectorClock) : Type 0 where
  pub count : ℕ
  pub found : lookup k c ≡ some count
  pub positive : 0 < count
  pub largest : (j : String) (z : ℕ) → lookup j c ≡ some z → j ≢ k → z < count

-- It is what every call extracts.
Leads-extract_node_id :
    (k : String) (c d : VectorClock) → SameMap c d → IsMap d → Leads k c → extract_node_id d ≡ k
Leads-extract_node_id k c d same map l =
    extract_node_id_unique d k l.count map (sym (same k) ∙ l.found) l.positive
      (λ j z e ne. l.largest j z (same j ∙ e) ne)

module _ (a b a' b' : VectorClock) (at_a : SameMap a a') (at_b : SameMap b b') where
  -- What the two calls choose between clocks of which neither is later.
  chosen :
      compare a b ≡ unordered
      → (resolve a b ≡ (if str_lt (extract_node_id a) (extract_node_id b) then a else b))
        × (resolve b' a' ≡ (if str_lt (extract_node_id b') (extract_node_id a') then b' else a'))
  chosen u =
      let u' : compare a' b' ≡ unordered = sym (compare_cong a a' b b' at_a at_b) ∙ u in
      ground (arith, resolve_cases a b, resolve_cases a' b')

  later_chosen : compare a b ≢ unordered → SameMap (resolve a b) (resolve b' a')
  later_chosen ordered k =
      let same = compare_cong a a' b b' at_a at_b in
      ground (arith, resolve_cases a b, resolve_cases a' b', at_a k, at_b k)

  differ_chosen :
      str_lt (extract_node_id a) (extract_node_id b)
        ≢ str_lt (extract_node_id b') (extract_node_id a')
      → SameMap (resolve a b) (resolve b' a')
  differ_chosen differ k = elim (resolve_cases a b) [
    | inl (e, p, q) ↦ later_chosen (λ u. cc) k
    | inr (inl (e, p, q)) ↦ later_chosen (λ u. cc) k
    | inr (inr (u, p, q)) ↦ elim (Bool-cases (str_lt (extract_node_id a) (extract_node_id b))) [
      | inl first ↦ elim (Bool-cases (str_lt (extract_node_id b') (extract_node_id a'))) [
        | inl second ↦ absurd (differ (first ∙ sym second))
        | inr second ↦ ground (arith, chosen u, at_a k)
      ]
      | inr first ↦ elim (Bool-cases (str_lt (extract_node_id b') (extract_node_id a'))) [
        | inl second ↦ ground (arith, chosen u, at_b k)
        | inr second ↦ absurd (differ (first ∙ sym second))
      ]
    ]
  ]

  -- In two calls that get the same two clocks in opposite places, each with its own order of their
  -- entries, the choice is the same clock exactly if one of the clocks is later, or they are the
  -- same clock, or just one of the calls finds that its first clock's extracted id is the smaller.
  pub resolve_comm_iff : SameMap (resolve a b) (resolve b' a') ↔ (
      (compare a b ≢ unordered)
      ⊎ SameMap a b
      ⊎ (str_lt (extract_node_id a) (extract_node_id b)
          ≢ str_lt (extract_node_id b') (extract_node_id a')))
  resolve_comm_iff = (to, from)
    where
      to :
          SameMap (resolve a b) (resolve b' a')
          → (compare a b ≢ unordered)
            ⊎ SameMap a b
            ⊎ (str_lt (extract_node_id a) (extract_node_id b)
                ≢ str_lt (extract_node_id b') (extract_node_id a'))
      to h = elim (resolve_cases a b) [
        | inl (e, p, q) ↦ inl (λ u. cc)
        | inr (inl (e, p, q)) ↦ inl (λ u. cc)
        | inr (inr (u, p, q)) ↦ elim (Bool-cases (str_lt (extract_node_id a) (extract_node_id b))) [
          | inl first ↦ elim (Bool-cases (str_lt (extract_node_id b') (extract_node_id a'))) [
            | inl second ↦ inr (inl (λ k. ground (arith, chosen u, h k, at_b k)))
            | inr second ↦ inr (inr (λ e. cc))
          ]
          | inr first ↦ elim (Bool-cases (str_lt (extract_node_id b') (extract_node_id a'))) [
            | inl second ↦ inr (inr (λ e. cc))
            | inr second ↦ inr (inl (λ k. ground (arith, chosen u, h k, at_a k)))
          ]
        ]
      ]

      from :
          (compare a b ≢ unordered)
            ⊎ SameMap a b
            ⊎ (str_lt (extract_node_id a) (extract_node_id b)
                ≢ str_lt (extract_node_id b') (extract_node_id a'))
          → SameMap (resolve a b) (resolve b' a')
      from (inl ordered) = later_chosen ordered
      from (inr (inl same)) =
          λ k. ground (arith, resolve_cases a b, resolve_cases a' b', at_a k, at_b k, same k)
      from (inr (inr differ)) = differ_chosen differ

  -- Where two nodes lead the two clocks, the order of the entries does not matter.
  pub resolve_led :
      (i j : String)
      → IsMap a
      → IsMap b
      → IsMap a'
      → IsMap b'
      → Leads i a
      → Leads j b
      → i ≢ j
      → SameMap (resolve a b) (resolve b' a')
  resolve_led i j ma mb ma' mb' la lb ne =
      let ia = Leads-extract_node_id i a a (λ k. refl) ma la in
      let ja = Leads-extract_node_id j b b (λ k. refl) mb lb in
      let ia' = Leads-extract_node_id i a a' at_a ma' la in
      let jb' = Leads-extract_node_id j b b' at_b mb' lb in
      resolve_comm_iff.1 (
        inr (
          inr (λ e.
            let same : str_lt i j ≡ str_lt j i = cc (ia, ja, ia', jb', e) in
            ground (arith, str_lt_asymm i j, str_lt_total i j, same, ne))))
