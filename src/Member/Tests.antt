-- ===== src/Member/Tests.antt =====
-- A cluster's timestamps and its safe point.
use mock_tikv.Prelude.{◌≡◌, true, [], ◌∷◌, ◌++◌, List}
use mock_tikv.Server.{TsMu}
use mock_tikv.Server.Increasing.{Increasing}
use mock_tikv.Engine.Memory.{MemDb, empty_db}
use mock_tikv.Member.{
  Instance, pd_answer, get_gc_safe_point, update_gc_safe_point, TsoRequest, tso, tso_end,
}
use mock_tikv.Member.Laws.{sent, tso-Increasing, get-update_gc_safe_point}

abbrev one : Instance MemDb
one = record {
  cluster = record {
    cluster_id = 1;
    max_peer_count = 3;
    safe_point = 50;
    regions = [];
    region_by_id = [];
  };
  member = record { member_id = 4; client_urls = [] };
  stores = [];
  db = empty_db;
}

abbrev began : TsMu
began = record { physical_ts = 0; logical_ts = 0 }

-- Requests at a clock that goes back
abbrev asks : List TsoRequest
asks =
    record { header = 1; count = 1; now = 9; sends = true }
    ∷ record { header = 1; count = 1; now = 8; sends = true }
    ∷ []

tso-Increasing_example : Increasing (
    sent (tso one.cluster tso_end began asks)
    ++ sent (tso one.cluster tso_end (tso one.cluster tso_end began asks).0 asks))
tso-Increasing_example = tso-Increasing one.cluster one.cluster tso_end tso_end began asks asks

get-update_gc_safe_point_example :
    ((update_gc_safe_point one 1 30).1 ≡ pd_answer 1 30)
    × ((get_gc_safe_point (update_gc_safe_point one 1 30).0 1).1 ≡ pd_answer 1 50)
get-update_gc_safe_point_example = get-update_gc_safe_point one 30
