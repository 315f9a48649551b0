-- ===== src/Bytes.antt =====
-- bytes.Compare and bytes.Equal of Go's standard library, as the server's code uses them.
pub mod Order
pub mod Endian
use Prim.Native.Nat.{compare}
use mock_tikv.Prelude.{ℕ, Ordering, ◌≡◌, Bool, true, false, [], ◌∷◌, Bytes}

-- bytes.Compare: -1, 0 and 1 are `lt`, `eq` and `gt`.
unfoldable pub cmp : Bytes → Bytes → Ordering
cmp [] [] = Ordering.eq
cmp [] (y ∷ ys) = Ordering.lt
cmp (x ∷ xs) [] = Ordering.gt
cmp (x ∷ xs) (y ∷ ys) = elim (compare x y) [
  | Ordering.lt ↦ Ordering.lt
  | Ordering.eq ↦ cmp xs ys
  | Ordering.gt ↦ Ordering.gt
]

-- bytes.Equal
unfoldable pub equal : Bytes → Bytes → Bool
unfolding cmp
equal a b = elim (cmp a b) [ Ordering.eq ↦ true | _ ↦ false ]

-- bytes.Compare(a, b) < 0, and <= 0
unfoldable pub less : Bytes → Bytes → Bool
unfolding cmp
less a b = elim (cmp a b) [ Ordering.lt ↦ true | _ ↦ false ]

unfoldable pub less_eq : Bytes → Bytes → Bool
unfolding cmp
less_eq a b = elim (cmp a b) [ Ordering.gt ↦ false | _ ↦ true ]
