-- ===== src/Bytes/Order.antt =====
-- The laws of the byte order.
use mock_tikv.Prelude.{Ordering, ◌≡◌, ◌↔◌, refl, true, [], ◌∷◌, ◌++◌, arith, Bytes, length}
use mock_tikv.Bytes.{cmp, equal}

-- Two lists in one order, and two more in another behind them.
abbrev pub andthen : Ordering → Ordering → Ordering
andthen Ordering.lt o = Ordering.lt
andthen Ordering.eq o = o
andthen Ordering.gt o = Ordering.gt

abbrev pub swap : Ordering → Ordering
swap Ordering.lt = Ordering.gt
swap Ordering.eq = Ordering.eq
swap Ordering.gt = Ordering.lt

pub cmp_self : (a : Bytes) → cmp a a ≡ Ordering.eq
unfolding cmp
cmp_self [] = refl
cmp_self (x ∷ xs) = ground (arith, cmp_self xs)

pub cmp-swap : (a b : Bytes) → cmp b a ≡ swap (cmp a b)
unfolding cmp
cmp-swap [] [] = refl
cmp-swap [] (y ∷ ys) = refl
cmp-swap (x ∷ xs) [] = refl
cmp-swap (x ∷ xs) (y ∷ ys) = ground (arith, cmp-swap xs ys)

pub cmp-eq : (a b : Bytes) → cmp a b ≡ Ordering.eq → a ≡ b
unfolding cmp
cmp-eq [] [] h = refl
cmp-eq [] (y ∷ ys) h = cc
cmp-eq (x ∷ xs) [] h = cc
cmp-eq (x ∷ xs) (y ∷ ys) h = ground (arith, cmp-eq xs ys)

pub cmp_trans :
    (a b c : Bytes) → cmp a b ≡ Ordering.lt → cmp b c ≡ Ordering.lt → cmp a c ≡ Ordering.lt
unfolding cmp
cmp_trans [] [] c h k = cc
cmp_trans [] (y ∷ ys) [] h k = cc
cmp_trans [] (y ∷ ys) (z ∷ zs) h k = refl
cmp_trans (x ∷ xs) [] c h k = cc
cmp_trans (x ∷ xs) (y ∷ ys) [] h k = cc
cmp_trans (x ∷ xs) (y ∷ ys) (z ∷ zs) h k = ground (arith, cmp_trans xs ys zs)

-- Lists of one length are compared before what follows them.
pub cmp-append :
    (a b s t : Bytes) → length a ≡ length b → cmp (a ++ s) (b ++ t) ≡ andthen (cmp a b) (cmp s t)
unfolding cmp
cmp-append [] [] s t h = refl
cmp-append [] (y ∷ ys) s t h = absurd (omega arith)
cmp-append (x ∷ xs) [] s t h = absurd (omega arith)
cmp-append (x ∷ xs) (y ∷ ys) s t h = ground (arith, cmp-append xs ys s t (omega arith))

pub equal_iff : (a b : Bytes) → (equal a b ≡ true) ↔ (a ≡ b)
unfolding equal
equal_iff a b = (λ h. cmp-eq a b (ground arith), λ e. rw (e) (ground (arith, cmp_self b)))
