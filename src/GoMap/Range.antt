-- ===== src/GoMap/Range.antt =====
-- Loops over a map.
use gossip_pubsub.Base.{
  String, ◌≡◌, refl, Option, none, some, [], ◌∷◌, ◌==◌, eq_iff, if◌then◌else◌, arith,
}
use gossip_pubsub.GoMap.{GoMap, lookup, for_range, IsMap}

-- The invariant rule.
pub for_range_inv {ℓ κ μ} :
    {V : Type ℓ} {S : Type κ} (P : S → Type μ) (body : String → V → S → S)
    → ((k : String) (v : V) (s : S) → P s → P (body k v s))
    → (m : GoMap V) (s : S) → P s
    → P (for_range body m s)
unfolding for_range
for_range_inv P body keep [] s h = h
for_range_inv P body keep ((k, v) ∷ m) s h = for_range_inv P body keep m (body k v s) (keep k v s h)

-- A loop whose round for `k` writes `put v (lookup k r)` at `k` and nothing else: each key of the
-- source is written once, from what the target held before the loop.
module _ {ℓ} {V W : Type ℓ} (body : String → V → GoMap W → GoMap W) (put : V → Option W → W) where
  abbrev pub IsLocal : Type ℓ
  IsLocal =
      (k j : String) (v : V) (r : GoMap W)
      → lookup j (body k v r) ≡ (if k == j then some (put v (lookup k r)) else lookup j r)

  abbrev pub overlay : Option V → Option W → Option W
  overlay none o = o
  overlay (some v) o = some (put v o)

  pub lookup-for_range :
      IsLocal
      → (m : GoMap V) (r : GoMap W) (j : String) → IsMap m
      → lookup j (for_range body m r) ≡ overlay (lookup j m) (lookup j r)
  unfolding for_range lookup
  lookup-for_range local [] r j h = refl
  lookup-for_range local ((k, v) ∷ m) r j h =
      ground (arith, eq_iff k j, local k j v r, lookup-for_range local m (body k v r) j h.1)

-- A loop whose round for `k` writes `make k v` at `k` and nothing else, whatever stood there.
module _ {ℓ} {V W : Type ℓ} (body : String → V → GoMap W → GoMap W) (make : String → V → W) where
  abbrev pub Writes : Type ℓ
  Writes =
      (k j : String) (v : V) (r : GoMap W)
      → lookup j (body k v r) ≡ (if k == j then some (make k v) else lookup j r)

  abbrev pub made : String → Option V → Option W → Option W
  made j none o = o
  made j (some v) o = some (make j v)

  pub lookup-for_range_make :
      Writes
      → (m : GoMap V) (r : GoMap W) (j : String) → IsMap m
      → lookup j (for_range body m r) ≡ made j (lookup j m) (lookup j r)
  unfolding for_range lookup
  lookup-for_range_make writes [] r j h = refl
  lookup-for_range_make writes ((k, v) ∷ m) r j h =
      ground (arith, eq_iff k j, writes k j v r, lookup-for_range_make writes m (body k v r) j h.1)
