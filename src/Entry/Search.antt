-- ===== src/Entry/Search.antt =====
-- sort.Search finds the place of a new value: `addValue` is insertion into a descending list.
use mock_tikv.Prelude.{
  ℕ, zero, suc, ◌+◌, ◌/◌, ◌-◌, ◌≤◌, ◌<◌, ◌≡◌, refl, ap, Bool, true, false, List, [], ◌∷◌, ◌++◌,
  length, take, drop, ltb, leb, leb→le, le→leb, arith, All, if◌then◌else◌, Bool-cases, inl, inr,
}
use mock_tikv.Marshal.{MvccValue}
use mock_tikv.Entry.{search_loop, search, at_most, add_value}

-- From `from` on `f` holds, up to `n`.
abbrev Holds : (ℕ → Bool) → ℕ → ℕ → Type 0
Holds f n from = (i : ℕ) → from ≤ i → i < n → f i ≡ true

abbrev Fails : (ℕ → Bool) → ℕ → Type 0
Fails f upto = (i : ℕ) → i < upto → f i ≡ false

abbrev pub IsMonotone : (ℕ → Bool) → ℕ → Type 0
IsMonotone f n = (i j : ℕ) → i ≤ j → j < n → f i ≡ true → f j ≡ true

module _ (f : ℕ → Bool) (n : ℕ) (mono : IsMonotone f n) where
  Fails-below : (h : ℕ) → h < n → f h ≡ false → Fails f (h + 1)
  Fails-below h lt e i hi = elim (Bool-cases (f i)) [
    | inl t ↦ ground (arith, mono i h (omega arith) lt t)
    | inr u ↦ u
  ]

  search_loop_lem :
      (fuel lo hi : ℕ)
      → hi - lo ≤ fuel
      → lo ≤ hi
      → hi ≤ n
      → Fails f lo
      → Holds f n hi
      → (search_loop f fuel lo hi ≤ n)
        × Fails f (search_loop f fuel lo hi)
        × Holds f n (search_loop f fuel lo hi)
  unfolding search_loop
  search_loop_lem zero lo hi fu le hn below above =
      (omega arith, below, λ i a b. above i (omega arith) b)
  search_loop_lem (suc fuel) lo hi fu le hn below above = elim (Bool-cases (ltb lo hi)) [
    | inr done ↦ rw done (omega (arith), below, λ i a b. above i (ground arith) b)
    | inl more ↦ elim (Bool-cases (f ((lo + hi) / 2))) [
      | inl t ↦
          rw (more, t)
            (search_loop_lem fuel lo ((lo + hi) / 2) (ground arith) (ground arith) (ground arith)
              below (λ i a b. mono ((lo + hi) / 2) i a b t))
      | inr u ↦
          rw (more, u)
            (search_loop_lem fuel ((lo + hi) / 2 + 1) hi (ground arith) (ground arith) hn
              (Fails-below ((lo + hi) / 2) (ground arith) u) above)
    ]
  ]

  search_lem : (search n f ≤ n) × Fails f (search n f) × Holds f n (search n f)
  unfolding search
  search_lem =
      search_loop_lem n 0 n (omega arith) (omega arith) (omega arith) (λ i h. absurd (omega arith))
        (λ i a b. absurd (omega arith))

-- Values in descending order of their commit timestamps.
abbrev pub IsDesc : List MvccValue → Type 0
IsDesc [] = Unit
IsDesc (x ∷ xs) = All (λ y. y.commit_ts ≤ x.commit_ts) xs × IsDesc xs

-- Insertion before the first value that is not newer.
unfoldable pub insert_desc : MvccValue → List MvccValue → List MvccValue
insert_desc v [] = v ∷ []
insert_desc v (x ∷ xs) = if leb x.commit_ts v.commit_ts then v ∷ x ∷ xs else x ∷ insert_desc v xs

at_most-All :
    (xs : List MvccValue) (m ts j : ℕ)
    → All (λ y. y.commit_ts ≤ m) xs
    → m ≤ ts
    → j < length xs
    → at_most xs ts j ≡ true
unfolding at_most
at_most-All [] m ts j h le lt = absurd (omega arith)
at_most-All (x ∷ xs) m ts zero h le lt = le→leb _ _ (omega arith)
at_most-All (x ∷ xs) m ts (suc j) h le lt = at_most-All xs m ts j h.1 le (omega arith)

at_most_mono : (xs : List MvccValue) (ts : ℕ) → IsDesc xs → IsMonotone (at_most xs ts) (length xs)
unfolding at_most
at_most_mono [] ts d i j le lt e = absurd (omega arith)
at_most_mono (x ∷ xs) ts d zero zero le lt e = e
at_most_mono (x ∷ xs) ts d (suc i) zero le lt e = absurd (omega arith)
at_most_mono (x ∷ xs) ts d zero (suc j) le lt e =
    at_most-All xs x.commit_ts ts j d.0 (leb→le _ _ e) (omega arith)
at_most_mono (x ∷ xs) ts d (suc i) (suc j) le lt e =
    at_most_mono xs ts d.1 i j (omega arith) (omega arith) e

insert_at :
    (xs : List MvccValue) (v : MvccValue) (r : ℕ)
    → r ≤ length xs
    → Fails (at_most xs v.commit_ts) r
    → Holds (at_most xs v.commit_ts) (length xs) r
    → take r xs ++ v ∷ drop r xs ≡ insert_desc v xs
unfolding insert_desc at_most
insert_at [] v zero le below above = refl
insert_at [] v (suc r) le below above = absurd (omega arith)
insert_at (x ∷ xs) v zero le below above = rw (above 0 (omega arith) (omega arith))
insert_at (x ∷ xs) v (suc r) le below above = rw (below 0 (omega arith)) (
    ap (λ t. x ∷ t)
      (insert_at xs v r (omega arith) (λ i h. below (suc i) (omega arith))
        (λ i a b. above (suc i) (omega arith) (omega arith))))

take_all : (xs : List MvccValue) (n : ℕ) → length xs ≤ n → (take n xs ≡ xs) × (drop n xs ≡ [])
take_all [] zero h = (refl, refl)
take_all [] (suc n) h = (refl, refl)
take_all (x ∷ xs) zero h = absurd (omega arith)
take_all (x ∷ xs) (suc n) h = let (t, d) = take_all xs n (omega arith) in (ap (λ r. x ∷ r) t, d)

-- On a descending list the binary search of `addValue` finds the place of a plain insertion.
pub add_value-insert_desc :
    (values : List MvccValue) (v : MvccValue)
    → IsDesc values
    → add_value values v ≡ insert_desc v values
unfolding add_value
add_value-insert_desc values v d =
    let (le, below, above) =
      search_lem (at_most values v.commit_ts) (length values) (at_most_mono values v.commit_ts d) in
    let i : ℕ = search (length values) (at_most values v.commit_ts) in
    elim (Bool-cases (leb (length values) i)) [
      | inl last ↦
          let (t, e) = take_all values i (leb→le _ _ last) in
          rw last (rw (t, e) at (insert_at values v i le below above))
      | inr inside ↦ rw inside (insert_at values v i le below above)
    ]
