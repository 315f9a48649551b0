-- ===== src/Entry/Tests.antt =====
-- The in-memory entry on concrete histories of a key.
use mock_tikv.Prelude.{ℕ, ◌≡◌, refl, none, some, List, [], ◌∷◌, arith}
use mock_tikv.Errors.{ok}
use mock_tikv.Key.{new_mvcc_key}
use mock_tikv.Marshal.{MvccValue, MvccLock, type_put}
use mock_tikv.Entry.{
  Entry, new_entry, si, Mutation, IsolationLevel, add_value, first_visible, get, prewrite, commit,
  rollback, own_lock, tomb, op_put, get_txn_commit_info,
}
use mock_tikv.Entry.Search.{IsDesc, insert_desc, add_value-insert_desc}
use mock_tikv.Entry.Sorted.{Reachable-IsDesc, new, after, prewritten, committed_at, rolled_back}

abbrev put_at : ℕ → ℕ → ℕ → MvccValue
put_at start_ts commit_ts byte = record {
  value_type = type_put;
  start_ts = start_ts;
  commit_ts = commit_ts;
  value = byte ∷ [];
}

abbrev history : List MvccValue
history = put_at 15 20 2 ∷ put_at 5 10 1 ∷ []

history-IsDesc : IsDesc history
history-IsDesc = ((omega arith, tt), (tt, tt))

add_value-insert_desc_example :
    add_value history (put_at 11 12 9) ≡ insert_desc (put_at 11 12 9) history
add_value-insert_desc_example = add_value-insert_desc history (put_at 11 12 9) history-IsDesc

abbrev a_lock : MvccLock
a_lock = record {
  start_ts = 25;
  primary = 97 ∷ [];
  value = 3 ∷ [];
  op = op_put;
  ttl = 3000;
  min_commit_ts = 0;
}

abbrev locked_entry : Entry
locked_entry = record { key = new_mvcc_key (97 ∷ []); values = history; lock = some a_lock }

abbrev free_entry : Entry
free_entry = record { key = new_mvcc_key (97 ∷ []); values = history; lock = none }

abbrev fresh : Entry
fresh = new_entry (new_mvcc_key (97 ∷ []))

abbrev wanted : Mutation
wanted = record { op = op_put; key = 97 ∷ []; value = 3 ∷ [] }

prewrites : prewrite fresh wanted 25 (97 ∷ []) 3000 ≡ ok (record fresh { lock = some a_lock })
unfolding prewrite mock_tikv.Entry.prewrite_found mock_tikv.Entry.newer_head
prewrites = refl

commits_first :
    commit (record fresh { lock = some a_lock }) 25 30
    ≡ ok (record fresh { values = add_value [] (put_at 25 30 3) })
unfolding commit mock_tikv.Entry.commit_found mock_tikv.Entry.value_type_of
commits_first = refl

rolls_back_later :
    rollback (record fresh { values = add_value [] (put_at 25 30 3) }) 40
    ≡ ok (record fresh { values = add_value (add_value [] (put_at 25 30 3)) (tomb 40) })
unfolding rollback mock_tikv.Entry.rollback_found mock_tikv.Entry.rollback_unlocked
    get_txn_commit_info add_value
rolls_back_later = refl

Reachable-IsDesc_example : IsDesc (add_value (add_value [] (put_at 25 30 3)) (tomb 40))
Reachable-IsDesc_example =
    Reachable-IsDesc (new_mvcc_key (97 ∷ []))
      (record fresh { values = add_value (add_value [] (put_at 25 30 3)) (tomb 40) })
      (after
        (after (after new (prewritten wanted 25 (97 ∷ []) 3000 prewrites))
          (committed_at 25 30 commits_first))
        (rolled_back 40 rolls_back_later))

abbrev committed_entry : Entry
committed_entry = record free_entry { values = add_value history (put_at 25 30 3) }

commits : commit locked_entry 25 30 ≡ ok committed_entry
unfolding commit mock_tikv.Entry.commit_found mock_tikv.Entry.value_type_of
commits = refl

abbrev rolled_back_entry : Entry
rolled_back_entry = record free_entry { values = add_value history (tomb 25) }

no_record : get_txn_commit_info history 25 ≡ none
unfolding get_txn_commit_info
no_record = refl

rolls_back : rollback free_entry 25 ≡ ok rolled_back_entry
unfolding rollback mock_tikv.Entry.rollback_found mock_tikv.Entry.rollback_unlocked
    get_txn_commit_info
rolls_back = refl
