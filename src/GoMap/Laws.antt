-- ===== src/GoMap/Laws.antt =====
-- What a read finds after a write, and that writes keep the keys distinct.
use gossip_pubsub.Base.{String, ◌≡◌, refl, none, some, [], ◌∷◌, ◌==◌, eq_iff, if◌then◌else◌, arith}
use gossip_pubsub.GoMap.{GoMap, lookup, insert, delete, IsMap}

module _ {ℓ} {V : Type ℓ} where
  pub lookup-delete :
      (gone at : String) (m : GoMap V)
      → lookup at (delete gone m) ≡ (if gone == at then none else lookup at m)
  unfolding lookup delete
  lookup-delete gone at [] = ground arith
  lookup-delete gone at ((i, w) ∷ rest) =
      ground (arith, lookup-delete gone at rest, eq_iff i at, eq_iff i gone, eq_iff gone at)

  pub lookup-insert :
      (key at : String) (new : V) (m : GoMap V)
      → lookup at (insert key new m) ≡ (if key == at then some new else lookup at m)
  unfolding lookup insert
  lookup-insert key at new [] = ground arith
  lookup-insert key at new ((i, w) ∷ rest) =
      ground (arith, lookup-insert key at new rest, eq_iff i at, eq_iff i key, eq_iff key at)

  pub insert-IsMap : (k : String) (v : V) (m : GoMap V) → IsMap m → IsMap (insert k v m)
  unfolding lookup insert
  insert-IsMap k v [] h = (refl, tt)
  insert-IsMap k v ((i, w) ∷ m) h =
      ground (arith, eq_iff i k, eq_iff k i, lookup-insert k i v m, insert-IsMap k v m h.1)

  pub delete-IsMap : (k : String) (m : GoMap V) → IsMap m → IsMap (delete k m)
  unfolding delete
  delete-IsMap k [] h = tt
  delete-IsMap k ((i, w) ∷ m) h =
      ground (arith, eq_iff i k, eq_iff k i, lookup-delete k i m, delete-IsMap k m h.1)
