-- ===== src/Sync/Report/Lines.antt =====
-- The lines that CRDTSync/utils.go prints for a set.
use gossip_pubsub.Base.{
  length, ℕ, zero, suc, ◌+◌, ◌-◌, String, ◌≡◌, refl, ap, ◌∙◌, List, [], ◌∷◌, ◌++◌, ltb,
  if◌then◌else◌, arith,
}
use gossip_pubsub.Sync.Report.{Line, element_line, more_line, show_elements, show_set}

-- The elements of a list with their numbers, from `i + 1` on.
abbrev pub numbered : ℕ → List String → List Line
numbered i [] = []
numbered i (e ∷ elements) = element_line (i + 1) e ∷ numbered (i + 1) elements

abbrev pub take : ℕ → List String → List String
take zero l = []
take (suc n) [] = []
take (suc n) (e ∷ l) = e ∷ take n l

show_elements-numbered :
    (n i : ℕ) (elements : List String) → show_elements n i elements ≡ numbered i (take n elements)
unfolding show_elements
show_elements-numbered zero i elements = refl
show_elements-numbered (suc n) i [] = refl
show_elements-numbered (suc n) i (e ∷ elements) =
    ground (arith, show_elements-numbered n (i + 1) elements)

-- `PrintStats` shows the first three elements of a set with their numbers, or all that there are,
-- and then the number of the others if there are any.
show_set_lem :
    (elements : List String)
    → show_set elements
      ≡ numbered 0 (take 3 elements)
        ++ (if ltb 3 (length elements) then more_line (length elements - 3) ∷ [] else [])
unfolding show_set show_elements
show_set_lem [] = refl
show_set_lem (a ∷ []) = refl
show_set_lem (a ∷ b ∷ []) = refl
show_set_lem (a ∷ b ∷ c ∷ rest) = ground arith

take_all : (l : List String) → take (length l) l ≡ l
take_all [] = refl
take_all (e ∷ l) = ap (λ t. e ∷ t) (take_all l)

-- `PrintFinalState` shows every element with its number.
show_all_elements :
    (elements : List String) → show_elements (length elements) 0 elements ≡ numbered 0 elements
show_all_elements elements =
    show_elements-numbered (length elements) 0 elements ∙ ap (numbered 0) (take_all elements)
