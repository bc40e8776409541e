-- ===== src/GoMap.antt =====
-- Go's `map[string]V`, as an association list with distinct keys (`IsMap`). The order of the
-- entries is the order in which one run of `range` visits them; Go leaves it open.
pub mod Laws
pub mod Range
pub mod Values
use gossip_pubsub.Base.{
  String, ◌≡◌, Bool, true, false, Option, none, some, List, [], ◌∷◌, ◌==◌, if◌then◌else◌, ℕ, suc,
}

abbrev pub GoMap {ℓ} : Type ℓ → Type ℓ
GoMap V = List (String × V)

module _ {ℓ} {V : Type ℓ} where
  -- v, ok := m[key]
  unfoldable pub lookup : String → GoMap V → Option V
  lookup key [] = none
  lookup key ((i, w) ∷ rest) = let later = lookup key rest in if i == key then some w else later

  -- delete(m, key)
  unfoldable pub delete : String → GoMap V → GoMap V
  delete key [] = []
  delete key ((i, w) ∷ rest) =
      let later = delete key rest in if i == key then later else (i, w) ∷ later

  -- m[key] = new
  unfoldable pub insert : String → V → GoMap V → GoMap V
  insert key new [] = (key, new) ∷ []
  insert key new ((i, w) ∷ rest) =
      let later = insert key new rest in if i == key then (i, new) ∷ rest else (i, w) ∷ later

  -- len(m)
  abbrev pub len : GoMap V → ℕ
  len [] = 0
  len (e ∷ m) = suc (len m)

  -- No key stands twice.
  abbrev pub IsMap : GoMap V → Type ℓ
  IsMap [] = Unit
  IsMap ((k, v) ∷ m) = (lookup k m ≡ none) × IsMap m

  -- Two association lists that stand for one map.
  abbrev pub SameMap : GoMap V → GoMap V → Type ℓ
  SameMap a b = (k : String) → lookup k a ≡ lookup k b

-- for k, v := range m { s = body(k, v, s) }
unfoldable pub for_range {ℓ κ} : {V : Type ℓ} {S : Type κ} → (String → V → S → S) → GoMap V → S → S
for_range body [] s = s
for_range body ((k, v) ∷ m) s = for_range body m (body k v s)
