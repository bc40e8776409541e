-- ===== src/GoMap/Values.antt =====
-- A function at each value of a map.
use gossip_pubsub.Base.{
  String, ◌≡◌, refl, sym, ap, ◌∙◌, false, Option, none, some, [], ◌∷◌, ◌++◌, ◌==◌, eq_iff, arith,
}
use mathlib.Core.List.{append_assoc}
use gossip_pubsub.GoMap.{GoMap, lookup, insert, for_range, IsMap}

abbrev pub map_option {ℓ κ} : {V : Type ℓ} {W : Type κ} → (V → W) → Option V → Option W
map_option f none = none
map_option f (some v) = some (f v)

unfoldable pub map_values {ℓ κ} : {V : Type ℓ} {W : Type κ} → (V → W) → GoMap V → GoMap W
map_values f [] = []
map_values f ((k, v) ∷ m) = (k, f v) ∷ map_values f m

module _ {ℓ κ} {V : Type ℓ} {W : Type κ} (f : V → W) where
  pub lookup-map_values :
      (j : String) (m : GoMap V) → lookup j (map_values f m) ≡ map_option f (lookup j m)
  unfolding lookup map_values
  lookup-map_values j [] = refl
  lookup-map_values j ((k, v) ∷ m) = ground (arith, eq_iff k j, lookup-map_values j m)

  pub map_values-insert :
      (k : String) (v : V) (m : GoMap V)
      → map_values f (insert k v m) ≡ insert k (f v) (map_values f m)
  unfolding insert map_values
  map_values-insert k v [] = refl
  map_values-insert k v ((j, w) ∷ m) = ground (arith, eq_iff j k, map_values-insert k v m)

-- Writing each key of a map back with the image of its value.
module _ {ℓ} {V : Type ℓ} (f : V → V) where
  insert_in :
      (k : String) (v w : V) (before after : GoMap V)
      → lookup k before ≡ none
      → insert k w (before ++ (k, v) ∷ after) ≡ before ++ (k, w) ∷ after
  unfolding insert lookup
  insert_in k v w [] after h = ground (arith, eq_iff k k)
  insert_in k v w ((j, u) ∷ before) after h =
      ground (arith, eq_iff j k, insert_in k v w before after)

  lookup-snoc :
      (j k : String) (w : V) (m : GoMap V)
      → lookup j m ≡ none
      → (k == j) ≡ false
      → lookup j (m ++ (k, w) ∷ []) ≡ none
  unfolding lookup
  lookup-snoc j k w [] h ne = ground arith
  lookup-snoc j k w ((i, u) ∷ m) h ne = ground (arith, eq_iff i j, lookup-snoc j k w m)

  -- No key of one map stands in the other.
  abbrev Apart : GoMap V → GoMap V → Type ℓ
  Apart before [] = Unit
  Apart before ((k, v) ∷ after) = (lookup k before ≡ none) × Apart before after

  Apart-snoc :
      (k : String) (w : V) (before after : GoMap V)
      → lookup k after ≡ none
      → Apart before after
      → Apart (before ++ (k, w) ∷ []) after
  unfolding lookup
  Apart-snoc k w before [] h a = tt
  Apart-snoc k w before ((j, v) ∷ after) h a =
      let other : (k == j) ≡ false = ground (arith, eq_iff k j, eq_iff j k) in
      (lookup-snoc j k w before a.0 other, Apart-snoc k w before after (ground arith) a.1)

  rewrite_from :
      (body : String → V → GoMap V → GoMap V)
      → ((k : String) (v : V) (r : GoMap V) → body k v r ≡ insert k (f v) r)
      → (before after : GoMap V) → IsMap after
      → Apart before after
      → for_range body after (before ++ after) ≡ before ++ map_values f after
  unfolding for_range map_values
  rewrite_from body writes before [] map apart = refl
  rewrite_from body writes before ((k, v) ∷ after) map apart =
      ap (for_range body after) (
        writes k v (before ++ (k, v) ∷ after)
        ∙ insert_in k v (f v) before after apart.0
        ∙ sym (append_assoc before ((k, f v) ∷ []) after))
      ∙ rewrite_from body writes (before ++ (k, f v) ∷ []) after map.1
          (Apart-snoc k (f v) before after map.0 apart.1)
      ∙ append_assoc before ((k, f v) ∷ []) (map_values f after)

  Apart-nil : (m : GoMap V) → Apart [] m
  unfolding lookup
  Apart-nil [] = tt
  Apart-nil ((k, v) ∷ m) = (refl, Apart-nil m)

  -- A loop that writes each key back with the image of its value.
  pub for_range-map_values :
      (body : String → V → GoMap V → GoMap V)
      → ((k : String) (v : V) (r : GoMap V) → body k v r ≡ insert k (f v) r)
      → (m : GoMap V) → IsMap m
      → for_range body m m ≡ map_values f m
  for_range-map_values body writes m map = rewrite_from body writes [] m map (Apart-nil m)
