-- ===== src/Timer/Ids/Spec.antt =====
-- What the pool of timer ids promises: a first-in first-out queue of free ids.
use vnf_monitoring.Prelude.{ℕ, Option, none, some, List, [], ◌∷◌, ◌++◌, length, ltb, if◌then◌else◌}

abbrev pub FreeIds : Type 0
FreeIds = List ℕ

-- The id that was free for longest.
unfoldable pub take_id : FreeIds → FreeIds × Option ℕ
take_id [] = ([], none)
take_id (i ∷ q) = (q, some i)

-- `none` when all `max` ids are free.
unfoldable pub put_id : ℕ → FreeIds → ℕ → FreeIds × Option (Unit {0})
put_id max q i = if ltb (length q) max then (q ++ (i ∷ []), some tt) else (q, none)
