-- ===== src/Daemon/Replay/Sort.antt =====
-- sort.Slice by the start of each extent. Go's sort is not stable; no two accepted extents start at
-- the same slot.
use bsos.Base.{List, [], ◌∷◌, leb, if◌then◌else◌}
use bsos.Daemon.Interval.{Interval}

unfoldable pub insert_extent : Interval → List Interval → List Interval
insert_extent a [] = a ∷ []
insert_extent a (b ∷ bs) = if leb a.start b.start then a ∷ b ∷ bs else b ∷ insert_extent a bs

unfoldable pub sort_extents : List Interval → List Interval
unfolding insert_extent
sort_extents [] = []
sort_extents (a ∷ as') = insert_extent a (sort_extents as')
