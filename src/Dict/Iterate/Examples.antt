-- ===== src/Dict/Iterate/Examples.antt =====
-- An iteration over a dictionary of dict/OpenDict.cc.
use zeek_snippets.Prelude.{◌≡◌, some, arith}
use zeek_snippets.Run.{Returns}
use zeek_snippets.Dict.Tests.{cells, small, small-HasTable}
use zeek_snippets.Dict.Iterate.{init_for_iteration}
use zeek_snippets.Dict.Iterate.Visits.{iterate, entries, iterate_all}

iterate_all_example :
    Returns
      (λ r. (r.0 ≡ entries cells) × (r.1.table ≡ some cells) × (r.1.num_iterators ≡ 0))
      (iterate 7 (init_for_iteration small 5).0 (init_for_iteration small 5).1)
iterate_all_example = iterate_all small cells 5 small-HasTable (omega arith)
