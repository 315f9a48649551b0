-- ===== src/Mvcc/Cells/Effect.antt =====
-- What a batch does to the lock and the values of one key.
use mock_tikv.Prelude.{
  ◌≡◌, refl, ap, ◌∙◌, inl, inr, Bool, false, Option, none, some, List, [], ◌∷◌, ◌++◌, Bytes, All,
  if◌then◌else◌, Bool-cases, ◌||◌,
}
use mock_tikv.Bytes.{equal}
use mock_tikv.Bytes.Order.{equal_iff}
use mock_tikv.Marshal.{MvccLock, MvccValue}
use mock_tikv.Engine.{Engine, EngineLaws}
use mock_tikv.Mvcc.Cells.{Cell, lock_cell, value_cell, CellFits, InOrder, lock_of, values_of, Holds}
use mock_tikv.Mvcc.Cells.Shape.{in_order}
use mock_tikv.Mvcc.Cells.Change.{CellOp, store, unlock, encode_op, OpFits, apply_cells, write-Holds}
use mock_tikv.Mvcc.Cells.View.{
  put_version, lock_of-put_lock, values_of-put_lock, lock_of-put_value, values_of-put_value,
  lock_of-drop_lock, values_of-drop_lock,
}

-- The lock and the values of a key
abbrev pub View : Type 0
View = Option MvccLock × List MvccValue

abbrev pub view_of : Bytes → List Cell → View
view_of j cells = (lock_of j cells, values_of j cells)

unfoldable pub view_op : Bytes → CellOp → View → View
view_op j (store (lock_cell k l)) (lock, values) = ((if equal k j then some l else lock), values)
view_op j (store (value_cell k v)) (lock, values) =
    (lock, (if equal k j then put_version v values else values))
view_op j (unlock k) (lock, values) = ((if equal k j then none else lock), values)

unfoldable pub view_ops : Bytes → List CellOp → View → View
unfolding view_op
view_ops j [] view = view
view_ops j (op ∷ ops) view = view_ops j ops (view_op j op view)

pub view_ops-append :
    (j : Bytes) (a b : List CellOp) (view : View)
    → view_ops j (a ++ b) view ≡ view_ops j b (view_ops j a view)
unfolding view_ops
view_ops-append j [] b view = refl
view_ops-append j (op ∷ a) b view = view_ops-append j a b (view_op j op view)

abbrev pub mem_key : Bytes → List Bytes → Bool
mem_key j [] = false
mem_key j (k ∷ ks) = equal k j || mem_key j ks

-- One key of a list after another: a change of each key's view that is the same when it is made
-- again is made once for a key that is listed twice.
pub again :
    (f : Bytes → View → View)
    → ((i : Bytes) (view : View) → f i (f i view) ≡ f i view)
    → (j k : Bytes) (ks : List Bytes) (view : View)
    → (if mem_key j ks
        then f j (if equal k j then f k view else view)
        else if equal k j
        then f k view
        else view)
      ≡ (if mem_key j (k ∷ ks) then f j view else view)
again f twice j k ks view = elim (Bool-cases (equal k j)) [
  | inr n ↦ rw n refl
  | inl y ↦
      let same : k ≡ j = (equal_iff k j).0 y in
      rw (y, same)
        (elim (Bool-cases (mem_key j ks)) [ inl t ↦ rw t (twice j view) | inr f ↦ rw f refl ])
]

pair_eq :
    {o p : Option MvccLock} {vs ws : List MvccValue}
    → o ≡ p
    → vs ≡ ws
    → ◌≡◌ {A = View} (o, vs) (p, ws)
pair_eq h k = cc (h, k)

view_of-op :
    (j : Bytes) (op : CellOp) (cells : List Cell)
    → OpFits op
    → All CellFits cells
    → InOrder cells
    → view_of j (apply_cells (op ∷ []) cells) ≡ view_op j op (view_of j cells)
unfolding apply_cells view_op
view_of-op j (store (lock_cell k l)) cells ho h o =
    pair_eq (lock_of-put_lock j k l cells h) (values_of-put_lock j k l cells h)
view_of-op j (store (value_cell k v)) cells ho h o =
    pair_eq (lock_of-put_value j k v cells ho.1) (values_of-put_value j k v cells h o ho.1)
view_of-op j (unlock k) cells ho h o =
    pair_eq (lock_of-drop_lock j k cells h o) (values_of-drop_lock j k cells)

apply_cells-one :
    (op : CellOp) (ops : List CellOp) (cells : List Cell)
    → apply_cells (op ∷ ops) cells ≡ apply_cells ops (apply_cells (op ∷ []) cells)
unfolding apply_cells
apply_cells-one (store c) ops cells = refl
apply_cells-one (unlock k) ops cells = refl

module _ (e : Engine) (laws : EngineLaws e) where
  pub view_of-apply_cells :
      (j : Bytes) (ops : List CellOp) (db : e.Db) (cells : List Cell)
      → Holds e db cells
      → All OpFits ops
      → view_of j (apply_cells ops cells) ≡ view_ops j ops (view_of j cells)
  unfolding view_ops
  view_of-apply_cells j [] db cells h f = unfold apply_cells in refl
  view_of-apply_cells j (op ∷ ops) db cells h f =
      ap (view_of j) (apply_cells-one op ops cells)
      ∙ view_of-apply_cells j ops (e.write db (encode_op op ∷ [])).0 (apply_cells (op ∷ []) cells)
          (write-Holds e laws db cells (op ∷ []) h (f.0, tt)) f.1
      ∙ ap (view_ops j ops)
          (view_of-op j op cells f.0 h.fit (in_order cells h.fit (rw h.stored at (laws.sorted db))))
