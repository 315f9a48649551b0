-- ===== src/Marshal/Tests.antt =====
-- The binary forms of a lock and a value.
use mock_tikv.Prelude.{◌≡◌, [], ◌∷◌, arith}
use mock_tikv.Errors.{ok}
use mock_tikv.Marshal.{
  MvccLock, MvccValue, marshal_lock, unmarshal_lock, marshal_value, unmarshal_value, type_put,
}
use mock_tikv.Marshal.RoundTrip.{unmarshal_lock-marshal_lock, unmarshal_value-marshal_value}

-- A lock whose minCommitTS has been pushed forward
abbrev pushed_lock : MvccLock
pushed_lock = record {
  start_ts = 10;
  primary = 97 ∷ [];
  value = 1 ∷ 2 ∷ [];
  op = 0;
  ttl = 3000;
  min_commit_ts = 25;
}

abbrev a_value : MvccValue
a_value = record { value_type = type_put; start_ts = 10; commit_ts = 20; value = 1 ∷ 2 ∷ [] }

unmarshal_lock-marshal_lock_example :
    unmarshal_lock (marshal_lock pushed_lock) ≡ ok (record pushed_lock { min_commit_ts = 0 })
unmarshal_lock-marshal_lock_example = unmarshal_lock-marshal_lock pushed_lock (record {
  start_ts_fits = omega arith;
  primary_fits = omega arith;
  value_fits = omega arith;
  op_fits = omega arith;
  ttl_fits = omega arith;
})

unmarshal_value-marshal_value_example : unmarshal_value (marshal_value a_value) ≡ ok a_value
unmarshal_value-marshal_value_example = unmarshal_value-marshal_value a_value (record {
  type_fits = omega arith;
  start_ts_fits = omega arith;
  commit_ts_fits = omega arith;
  value_fits = omega arith;
})
