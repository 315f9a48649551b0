-- ===== src/Store/Batch/Tests.antt =====
-- A batch that cannot be served, for want of a region, is answered all the same.
use mock_tikv.Prelude.{◌≡◌, refl, false, none, some, [], ◌∷◌}
use mock_tikv.Entry.{si}
use mock_tikv.Engine.Memory.{MemDb, memory, empty_db}
use mock_tikv.Store.{State, Call, region_error, region_not_found, new_store_instance}
use mock_tikv.Store.Batch.{
  get_request, other_request, get_response, no_cmd, Round, batch_round, handle_batch_request,
}
use mock_tikv.Store.Batch.Laws.{Answers, batch_round-Answers}
use mock_tikv.Store.Kv.{kv_get}
use mock_tikv.Store.Check.{check_request, check_request_context, check_region}
use mock_tikv.Cluster.{find_by_id}

abbrev no_regions : State MemDb
no_regions = record {
  cluster = record {
    cluster_id = 1;
    max_peer_count = 3;
    safe_point = 0;
    regions = [];
    region_by_id = [];
  };
  id_alloc = 6;
  db = empty_db;
}

abbrev call : Call
call = record {
  context = record { region_id = 4; epoch = none; peer = none; isolation_level = si };
  size = 100;
  server_busy = false;
  io_timeout = false;
}

abbrev round : Round
round = record {
  request_ids = 11 ∷ 12 ∷ [];
  responses = some (get_response (region_error (region_not_found 4))) ∷ some no_cmd ∷ [];
  error = none;
}

answers :
    batch_round memory
      (new_store_instance "3.0.0")
      no_regions
      (11 ∷ 12 ∷ [])
      (get_request call (97 ∷ []) 20 ∷ other_request ∷ [])
    ≡ some round
unfolding batch_round handle_batch_request kv_get check_request check_request_context check_region
    find_by_id
answers = refl

batch_round-Answers_example :
    Answers memory
      (new_store_instance "3.0.0")
      no_regions
      (11 ∷ 12 ∷ [])
      (get_request call (97 ∷ []) 20 ∷ other_request ∷ [])
      round
batch_round-Answers_example =
    batch_round-Answers memory (new_store_instance "3.0.0") no_regions (11 ∷ 12 ∷ [])
      (get_request call (97 ∷ []) 20 ∷ other_request ∷ []) round answers refl
