-- ===== src/Entry/Info.antt =====
-- The queries of mvccEntry that only report: containsStartTS and dumpMvccInfo of server/mvcc.go.
use mock_tikv.Prelude.{
  ℕ, Bool, true, false, Option, none, some, List, [], ◌∷◌, map, Bytes, ltb, ◌==◌, if◌then◌else◌,
}
use mock_tikv.Marshal.{MvccValue, type_put, type_delete, type_rollback}
use mock_tikv.Entry.{Entry, own_lock, op_put, op_del, op_rollback}

-- The loop of mvccEntry.containsStartTS
unfoldable pub contains_value : List MvccValue → ℕ → Bool
contains_value [] start_ts = false
contains_value (item ∷ items) start_ts =
    if item.start_ts == start_ts
    then true
    else if ltb item.commit_ts start_ts
    then false
    else contains_value items start_ts

-- mvccEntry.containsStartTS
unfoldable pub contains_start_ts : Entry → ℕ → Bool
unfolding contains_value
contains_start_ts e start_ts = elim (own_lock e.lock start_ts) [
  | some l ↦ true
  | none ↦ contains_value e.values start_ts
]

-- kvrpcpb.MvccLock, MvccWrite, MvccValue and MvccInfo, as far as they are filled in
pub record InfoLock : Type 0 where
  pub type : ℕ
  pub start_ts : ℕ
  pub primary : Bytes
  pub short_value : Bytes

pub record InfoWrite : Type 0 where
  pub type : ℕ
  pub start_ts : ℕ
  pub commit_ts : ℕ

pub record InfoValue : Type 0 where
  pub value : Bytes
  pub start_ts : ℕ

pub record MvccInfo : Type 0 where
  pub lock : Option InfoLock
  pub writes : List InfoWrite
  pub values : List InfoValue

-- The switch of dumpMvccInfo; another type leaves the zero operation, Op_Put.
unfoldable pub op_of_type : ℕ → ℕ
op_of_type t =
    if t == type_put
    then op_put
    else if t == type_delete
    then op_del
    else if t == type_rollback
    then op_rollback
    else op_put

-- mvccEntry.dumpMvccInfo
unfoldable pub dump_mvcc_info : Entry → MvccInfo
unfolding op_of_type
dump_mvcc_info e = record {
  lock = elim e.lock [
    | none ↦ none
    | some l ↦
        some (record {
          type = l.op;
          start_ts = l.start_ts;
          primary = l.primary;
          short_value = l.value;
        })
  ];
  writes =
      map
        (λ item. record {
          type = op_of_type item.value_type;
          start_ts = item.start_ts;
          commit_ts = item.commit_ts;
        })
        e.values;
  values = map (λ item. record { value = item.value; start_ts = item.start_ts }) e.values;
}
