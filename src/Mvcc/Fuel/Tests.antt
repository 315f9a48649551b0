-- ===== src/Mvcc/Fuel/Tests.antt =====
-- The loops on the items of a small database.
use mock_tikv.Prelude.{none}
use mock_tikv.Engine.{Iter}
use mock_tikv.Engine.Memory.{memory}
use mock_tikv.Mvcc.Sample.{db}

abbrev whole : Iter
whole = memory.iterate db (record { start = none; limit = none })
