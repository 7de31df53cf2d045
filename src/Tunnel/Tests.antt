-- ===== src/Tunnel/Tests.antt =====
-- Examples for the tunnel of src/utils.rs.
use tinyproxy_rust.Prelude.{◌≡◌, [], ◌∷◌, ◌++◌, List}
use tinyproxy_rust.Tunnel.{got, wrote, Event, from1, from2, finished, copy_bidirectional}
use tinyproxy_rust.Tunnel.Laws.{
  Reports, relayed_all, copy_bidirectional-end, copy_bidirectional-Reports,
}

abbrev both : List Event
both = from1 (got (1 ∷ 2 ∷ [])) wrote ∷ from2 (got (3 ∷ [])) wrote ∷ []

abbrev both_end : List Event
both_end = both ++ from1 (got []) wrote ∷ []

copy_bidirectional-end_example :
    copy_bidirectional (both ++ from2 (got []) wrote ∷ from1 (got (4 ∷ [])) wrote ∷ [])
    ≡ (finished 3, relayed_all both)
copy_bidirectional-end_example =
    copy_bidirectional-end both (from2 (got []) wrote) (from1 (got (4 ∷ [])) wrote ∷ [])
      (tt, (tt, tt)) tt

copy_bidirectional-Reports_example :
    Reports (copy_bidirectional both_end).0 (copy_bidirectional both_end).1
copy_bidirectional-Reports_example = copy_bidirectional-Reports both_end
