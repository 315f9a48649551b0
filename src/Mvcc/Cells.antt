-- ===== src/Mvcc/Cells.antt =====
-- The logical content of a database that the MVCC operations have written: cells, each a lock or a
-- value of a key, in the order of the layout comment of MVCCLevelDB in server/mvcc_leveldb.go. The
-- children relate the iterator's decoders and the batches to it.
pub mod Shape
pub mod Read
pub mod Keys
pub mod Range
pub mod Next
pub mod Gets
pub mod Scan
pub mod Locks
pub mod Resolve
pub mod Upward
pub mod Listed
pub mod Change
pub mod View
pub mod Effect
use Prim.Native.Nat.{compare}
use mock_tikv.Prelude.{
  ℕ, Ordering, ◌≡◌, ◌<◌, ◌⊎◌, Bool, Option, none, some, List, [], ◌∷◌, map, Bytes, All,
  if◌then◌else◌, IsU64,
}
use mock_tikv.Bytes.{cmp, equal, less_eq}
use mock_tikv.Bytes.Order.{andthen}
use mock_tikv.Key.{mvcc_encode, lock_ver}
use mock_tikv.Marshal.{MvccLock, MvccValue, marshal_lock, marshal_value}
use mock_tikv.Marshal.RoundTrip.{LockFits, ValueFits}
use mock_tikv.Engine.{Item, Engine, contents}

pub data Cell : Type 0 where
  lock_cell : Bytes → MvccLock → Cell
  value_cell : Bytes → MvccValue → Cell

abbrev pub key_of : Cell → Bytes
key_of (lock_cell k l) = k
key_of (value_cell k v) = k

abbrev pub ver_of : Cell → ℕ
ver_of (lock_cell k l) = lock_ver
ver_of (value_cell k v) = v.commit_ts

abbrev pub payload_of : Cell → Bytes
payload_of (lock_cell k l) = marshal_lock l
payload_of (value_cell k v) = marshal_value v

-- The item that stores a cell
abbrev pub encode_cell : Cell → Item
encode_cell c = record { key = mvcc_encode (key_of c) (ver_of c); value = payload_of c }

-- A cell that is stored and read back as it is: its numbers and slices fit, a lock has no minCommitTS,
-- and a value's version is not that of locks.
abbrev pub CellFits : Cell → Type 0
CellFits (lock_cell k l) = LockFits l × (l.min_commit_ts ≡ 0)
CellFits (value_cell k v) = ValueFits v × (v.commit_ts < lock_ver)

-- The database holds these cells and nothing else.
pub record Holds (e : Engine) (db : e.Db) (cells : List Cell) : Type 0 where
  pub stored : contents e db ≡ map encode_cell cells
  pub fit : All CellFits cells

-- The order of cells: keys upwards, versions downwards.
abbrev pub order : Cell → Cell → Ordering
order c d = andthen (cmp (key_of c) (key_of d)) (compare (ver_of d) (ver_of c))

abbrev pub AllAfter : Cell → List Cell → Type 0
AllAfter c [] = Unit
AllAfter c (d ∷ ds) = (order c d ≡ Ordering.lt) × AllAfter c ds

abbrev pub InOrder : List Cell → Type 0
InOrder [] = Unit
InOrder (c ∷ cs) = AllAfter c cs × InOrder cs

-- The lock and the values of a key
unfoldable pub lock_of : Bytes → List Cell → Option MvccLock
lock_of k [] = none
lock_of k (lock_cell j l ∷ cs) = if equal j k then some l else lock_of k cs
lock_of k (value_cell j v ∷ cs) = lock_of k cs

unfoldable pub values_of : Bytes → List Cell → List MvccValue
values_of k [] = []
values_of k (lock_cell j l ∷ cs) = values_of k cs
values_of k (value_cell j v ∷ cs) = if equal j k then v ∷ values_of k cs else values_of k cs

-- The cells whose keys are not below `k`
unfoldable pub from : Bytes → List Cell → List Cell
from k [] = []
from k (c ∷ cs) = if less_eq k (key_of c) then c ∷ from k cs else from k cs

-- Every key is above `k`.
abbrev pub Beyond : Bytes → List Cell → Type 0
Beyond k [] = Unit
Beyond k (c ∷ cs) = (cmp k (key_of c) ≡ Ordering.lt) × Beyond k cs

-- First the values of `k`, then keys above it
abbrev pub Values : Bytes → List Cell → Type 0
Values k [] = Unit
Values k (lock_cell j l ∷ cs) = Beyond k (lock_cell j l ∷ cs)
Values k (value_cell j v ∷ cs) = ((j ≡ k) × Values k cs) ⊎ Beyond k (value_cell j v ∷ cs)

-- First the lock of `k`, if it has one, then its values, then keys above it
abbrev pub Entry : Bytes → List Cell → Type 0
Entry k [] = Unit
Entry k (lock_cell j l ∷ cs) = ((j ≡ k) × Values k cs) ⊎ Beyond k (lock_cell j l ∷ cs)
Entry k (value_cell j v ∷ cs) = Values k (value_cell j v ∷ cs)
