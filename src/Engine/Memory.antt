-- ===== src/Engine/Memory.antt =====
-- A database in memory that meets `EngineLaws`: a sorted list of items. It shows that the laws can
-- hold, and the tests run on it.
use mock_tikv.Prelude.{refl, sym, ap, ◌∙◌, none, List, []}
use mock_tikv.Errors.{ok}
use mock_tikv.Engine.{Item, Engine, EngineLaws, apply_batch, in_range, lookup, IsSorted}
use mock_tikv.Engine.Sorted.{apply_batch-IsSorted, in_range-whole}

abbrev pub MemDb : Type 0
MemDb = (items : List Item) × IsSorted items

abbrev pub memory : Engine
memory = record {
  Db = MemDb;
  iterate = λ db r. (in_range r db.0, none);
  get_key = λ db k. ok (lookup k db.0);
  write = λ db b. ((apply_batch b db.0, apply_batch-IsSorted b db.0 db.1), none);
}

abbrev pub empty_db : MemDb
empty_db = ([], tt)

pub memory-EngineLaws : EngineLaws memory
memory-EngineLaws = record {
  sorted = λ db. rw in_range-whole db.1;
  iterate_lem = λ db r. rw in_range-whole;
  get_key_lem = λ db k. rw in_range-whole;
  write_contents =
      λ db b. in_range-whole (apply_batch b db.0) ∙ ap (apply_batch b) (sym (in_range-whole db.0));
  write_ok = λ db b. refl;
}
