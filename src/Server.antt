-- ===== src/Server.antt =====
-- The timestamps and ids of server/server.go: getTS with the state `tsMu`, and allocID. The clock is
-- what time.Now gives at a call, in milliseconds, an argument of the call.
pub mod Increasing
use mock_tikv.Prelude.{
  ℕ, zero, suc, ◌+◌, ◌*◌, ◌^◌, Bool, true, false, List, [], ◌∷◌, leb, if◌then◌else◌, add_u64,
}

-- tsMu
pub record TsMu : Type 0 where
  pub physical_ts : ℕ
  pub logical_ts : ℕ

-- Server.getTS, whose answer is the state that it leaves; `count` is not used.
unfoldable pub get_ts : ℕ → TsMu → TsMu
get_ts now ts =
    if leb now ts.physical_ts
    then record ts { logical_ts = ts.logical_ts + 1 }
    else record { physical_ts = now; logical_ts = 0 }

-- The answers of one call after another, at the clock's readings
unfoldable pub answers : List ℕ → TsMu → List TsMu
unfolding get_ts
answers [] ts = []
answers (now ∷ clock) ts = get_ts now ts ∷ answers clock (get_ts now ts)

-- Server.allocID: the id, which is the counter afterwards.
abbrev pub alloc_id : ℕ → ℕ
alloc_id id_alloc = add_u64 id_alloc 1

-- clusterInstance.allocIDs: the ids and the counter.
unfoldable pub alloc_ids : ℕ → ℕ → List ℕ × ℕ
alloc_ids zero id_alloc = ([], id_alloc)
alloc_ids (suc length) id_alloc =
    let (ids, after) = alloc_ids length (alloc_id id_alloc) in (alloc_id id_alloc ∷ ids, after)
