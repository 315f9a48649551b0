-- ===== src/Server/Increasing.antt =====
-- Timestamps and ids go strictly upwards.
use mock_tikv.Prelude.{
  ℕ, zero, suc, ◌+◌, ◌≡◌, ◌<◌, ◌^◌, ◌⊎◌, inl, inr, refl, ap, List, [], ◌∷◌, All, leb, arith,
  Bool-cases,
}
use mock_tikv.Server.{TsMu, get_ts, answers, alloc_id, alloc_ids}

-- The order of timestamps: by the physical part, then by the logical one.
abbrev pub Before : TsMu → TsMu → Type 0
Before a b =
    (a.physical_ts < b.physical_ts)
    ⊎ ((a.physical_ts ≡ b.physical_ts) × (a.logical_ts < b.logical_ts))

pub Before-trans : (a b c : TsMu) → Before a b → Before b c → Before a c
Before-trans a b c (inl h) (inl k) = inl (omega arith)
Before-trans a b c (inl h) (inr (k, l)) = inl (omega arith)
Before-trans a b c (inr (h, i)) (inl k) = inl (omega arith)
Before-trans a b c (inr (h, i)) (inr (k, l)) = inr (omega arith, omega arith)

pub get_ts-Before : (now : ℕ) (ts : TsMu) → Before ts (get_ts now ts)
unfolding get_ts
get_ts-Before now ts = elim (Bool-cases (leb now ts.physical_ts)) [
  | inl t ↦ rw t (inr (refl, omega arith))
  | inr u ↦ rw u (inl (ground arith))
]

-- Each timestamp is before all later ones.
abbrev pub Increasing : List TsMu → Type 0
Increasing [] = Unit
Increasing (t ∷ ts) = All (Before t) ts × Increasing ts

answers-after :
    (ts : TsMu) (clock : List ℕ) (first : TsMu)
    → Before ts first
    → All (Before ts) (answers clock first)
unfolding answers
answers-after ts [] first h = tt
answers-after ts (now ∷ clock) first h =
    let next : Before ts (get_ts now first) =
      Before-trans ts first (get_ts now first) h (get_ts-Before now first) in
    (next, answers-after ts clock (get_ts now first) next)

later : (clock : List ℕ) (ts : TsMu) → All (Before ts) (answers clock ts)
unfolding answers
later [] ts = tt
later (now ∷ clock) ts =
    (get_ts-Before now ts, answers-after ts clock (get_ts now ts) (get_ts-Before now ts))

-- Whatever the clock reads at each call of getTS, and even if it goes backwards, each timestamp
-- that is handed out is before all later ones.
pub answers-Increasing : (clock : List ℕ) (ts : TsMu) → Increasing (answers clock ts)
unfolding answers
answers-Increasing [] ts = tt
answers-Increasing (now ∷ clock) ts =
    (later clock (get_ts now ts), answers-Increasing clock (get_ts now ts))

no_wrap : (n : ℕ) → n + 1 < 2 ^ 64 → alloc_id n ≡ n + 1
no_wrap n h = omega arith

-- The numbers that follow one
abbrev pub following : ℕ → ℕ → List ℕ
following zero n = []
following (suc length) n = (n + 1) ∷ following length (n + 1)

-- As long as the counter does not wrap around, allocIDs hands out the numbers that follow it, one
-- after another, and leaves the counter at the last of them.
pub alloc_ids-following :
    (length id_alloc : ℕ)
    → id_alloc + length < 2 ^ 64
    → alloc_ids length id_alloc ≡ (following length id_alloc, id_alloc + length)
unfolding alloc_ids
alloc_ids-following zero n h = ap (λ (m : ℕ). ([], m)) (omega arith)
alloc_ids-following (suc k) n h =
    let total : n + 1 + k ≡ n + suc k = omega arith in
    rw (no_wrap n (omega arith)) (rw (alloc_ids-following k (n + 1) (omega arith), total) refl)
