-- ===== src/Cluster/SafePoint.antt =====
-- The safe point of garbage collection goes upwards only.
use mock_tikv.Prelude.{
  ℕ, ◌≡◌, refl, ap, ◌∙◌, List, [], ◌∷◌, if◌then◌else◌, ltb, Bool-cases, inl, inr,
}
use mock_tikv.Cluster.{Cluster, update_safe_point}

-- One update after another
unfoldable pub update_all : Cluster → List ℕ → Cluster
unfolding update_safe_point
update_all c [] = c
update_all c (s ∷ ss) = update_all (update_safe_point c s) ss

unfoldable pub maximum : ℕ → List ℕ → ℕ
maximum m [] = m
maximum m (s ∷ ss) = maximum (if ltb m s then s else m) ss

update-max :
    (c : Cluster) (s : ℕ)
    → (update_safe_point c s).safe_point ≡ (if ltb c.safe_point s then s else c.safe_point)
unfolding update_safe_point
update-max c s = elim (Bool-cases (ltb c.safe_point s)) [ inl t ↦ rw t refl | inr u ↦ rw u refl ]

-- After updates in any order the safe point is the greatest of what it was and what was asked for.
pub update_all-maximum :
    (c : Cluster) (ss : List ℕ) → (update_all c ss).safe_point ≡ maximum c.safe_point ss
unfolding update_all maximum
update_all-maximum c [] = refl
update_all-maximum c (s ∷ ss) =
    update_all-maximum (update_safe_point c s) ss ∙ ap (λ m. maximum m ss) (update-max c s)
