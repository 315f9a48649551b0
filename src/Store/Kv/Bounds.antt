-- ===== src/Store/Kv/Bounds.antt =====
-- The end of the range of KvScan in server/store.go: below the end of the region and below the end
-- of the request.
use mock_tikv.Prelude.{
  Ordering, ◌≡◌, ◌⊎◌, inl, inr, refl, sym, ap, ◌∙◌, Bool, true, false, List, [], ◌∷◌, Bytes, ◌&&◌,
  is_empty, if◌then◌else◌, arith, Bool-cases,
}
use mock_tikv.Bytes.{cmp, less, less_eq}
use mock_tikv.Bytes.Order.{swap, cmp_trans, cmp-swap, cmp-eq}
use mock_tikv.Mvcc.Cells.{Cell, key_of}
use mock_tikv.Mvcc.Cells.Keys.{inside, scanned}
use mock_tikv.Store.Kv.{scan_end}

less-lt : (a b : Bytes) → less a b ≡ true → cmp a b ≡ Ordering.lt
unfolding less
less-lt a b h = ground arith

lt-less : (a b : Bytes) → cmp a b ≡ Ordering.lt → less a b ≡ true
unfolding less
lt-less a b h = ground arith

less_trans : (a b c : Bytes) → less a b ≡ true → less b c ≡ true → less a c ≡ true
less_trans a b c h k = lt-less a c (cmp_trans a b c (less-lt a b h) (less-lt b c k))

not_less : (c b : Bytes) → less c b ≡ false → (c ≡ b) ⊎ (cmp b c ≡ Ordering.lt)
unfolding less
not_less c b h = split (cmp c b) refl h
  where
    split :
        (o : Ordering)
        → cmp c b ≡ o
        → (elim o as (λ _. Bool) [ Ordering.lt ↦ true | _ ↦ false ]) ≡ false
        → (c ≡ b) ⊎ (cmp b c ≡ Ordering.lt)
    split Ordering.lt q u = cc
    split Ordering.eq q u = inl (cmp-eq c b q)
    split Ordering.gt q u = inr (cmp-swap c b ∙ ap swap q)

less_up : (a b c : Bytes) → less a b ≡ true → less c b ≡ false → less a c ≡ true
less_up a b c h u = elim (not_less c b u) [
  | inl e ↦ rw e h
  | inr lt ↦ lt-less a c (cmp_trans a b c (less-lt a b h) lt)
]

-- The smaller of two ends
less_both : (k a b : Bytes) → less k (if less a b then a else b) ≡ (less k a && less k b)
less_both k a b = elim (Bool-cases (less a b)) [
  | inl t ↦ rw t (elim (Bool-cases (less k a)) [
    | inl s ↦ rw (s, less_trans k a b s t) refl
    | inr f ↦ rw f refl
  ])
  | inr u ↦ rw u (elim (Bool-cases (less k b)) [
    | inl s ↦ rw (s, less_up k b a s u) refl
    | inr f ↦ rw f (elim (Bool-cases (less k a)) [ inl s ↦ rw s refl | inr g ↦ rw g refl ])
  ])
]

and_true : (a : Bool) → (a && true) ≡ a
and_true true = refl
and_true false = refl

and_assoc : (a b c : Bool) → (a && (b && c)) ≡ ((a && b) && c)
and_assoc true b c = refl
and_assoc false b c = refl

pub scanned-scan_end :
    (start_key region_end req_end k : Bytes)
    → scanned start_key (scan_end region_end req_end) k
      ≡ (scanned start_key req_end k && scanned [] region_end k)
unfolding scan_end
scanned-scan_end start_key [] [] k = sym (and_true _)
scanned-scan_end start_key (x ∷ xs) [] k = ap (λ b. b && less k (x ∷ xs)) (sym (and_true _))
scanned-scan_end start_key [] (y ∷ ys) k = sym (and_true _)
scanned-scan_end start_key (x ∷ xs) (y ∷ ys) k = ends (less (y ∷ ys) (x ∷ xs)) refl
  where
    below : Bool
    below = if is_empty start_key then true else less_eq start_key k

    smaller :
        (b : Bool)
        → less (y ∷ ys) (x ∷ xs) ≡ b
        → (below && less k (if b then y ∷ ys else x ∷ xs))
          ≡ ((below && less k (y ∷ ys)) && less k (x ∷ xs))
    smaller b q =
        ap (λ t. below && t)
          (ap (λ b. less k (if b then y ∷ ys else x ∷ xs)) (sym q) ∙ less_both k (y ∷ ys) (x ∷ xs))
        ∙ and_assoc below (less k (y ∷ ys)) (less k (x ∷ xs))

    ends :
        (b : Bool)
        → less (y ∷ ys) (x ∷ xs) ≡ b
        → scanned start_key (if b then y ∷ ys else x ∷ xs) k
          ≡ ((below && less k (y ∷ ys)) && less k (x ∷ xs))
    ends true q = smaller true q
    ends false q = smaller false q

pub inside-same :
    (v w : Bytes → Bool) (cs : List Cell) → ((k : Bytes) → v k ≡ w k) → inside v cs ≡ inside w cs
unfolding inside
inside-same v w [] h = refl
inside-same v w (c ∷ cs) h = rw (h (key_of c), inside-same v w cs h) refl
