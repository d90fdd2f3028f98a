-- ===== src/Timer/Ids/Inv.antt =====
-- When a pool of timer ids is well formed, and the queue of free ids that it stands for.
use vnf_monitoring.Prelude.{
  ◌+◌, ◌-◌, ◌≤◌, ◌<◌, ◌≡◌, refl, ap, ◌∙◌, true, false, Option, none, some, List, [], ◌∷◌, ◌++◌, map,
  arith, if◌then◌else◌, length, segment, length-map, length-segment, length-append,
}
use vnf_monitoring.Timer.Ids.{IdSlot, TidPool}
use vnf_monitoring.Timer.Ids.Spec.{FreeIds}

-- The cells of `tid_list` that hold free ids, the next to be handed out first.
abbrev pub free_slots : TidPool → List IdSlot
free_slots p =
    if p.comeback
    then segment p.tid_list p.assign_ptr (p.cancel_ptr - p.assign_ptr)
    else segment p.tid_list p.assign_ptr (p.maxtnum - p.assign_ptr)
      ++ segment p.tid_list 0 p.cancel_ptr

abbrev pub free_ids : TidPool → FreeIds
free_ids p = map (λ s. s.id) (free_slots p)

abbrev pub AllUnused : List IdSlot → Type 0
AllUnused [] = Unit
AllUnused (s ∷ l) = (s.flag ≡ false) × AllUnused l

pub record IsValid (p : TidPool) : Type 0 where
  pub assign_in : p.assign_ptr < p.maxtnum
  pub cancel_in : p.cancel_ptr < p.maxtnum
  pub cells : length p.tid_list ≡ p.maxtnum
  pub straight :
      p.comeback ≡ false
      → (p.cancel_ptr ≤ p.assign_ptr) × (p.cancel_ptr + p.maxtnum ≡ p.assign_ptr + p.tremainder)
  pub wrapped : p.comeback ≡ true → p.assign_ptr + p.tremainder ≡ p.cancel_ptr
  pub unused : AllUnused (free_slots p)

pub AllUnused-append : (k l : List IdSlot) → AllUnused k → AllUnused l → AllUnused (k ++ l)
AllUnused-append [] l h g = g
AllUnused-append (s ∷ k) l h g = (h.0, AllUnused-append k l h.1 g)

-- A valid pool has as many free cells as `tremainder` says.
pub length-free_slots : {p : TidPool} → IsValid p → length (free_slots p) ≡ p.tremainder
length-free_slots {p} v = ground (
  arith,
  v.straight,
  v.wrapped,
  length-segment p.tid_list p.assign_ptr (p.cancel_ptr - p.assign_ptr),
  length-segment p.tid_list p.assign_ptr (p.maxtnum - p.assign_ptr),
  length-segment p.tid_list 0 p.cancel_ptr,
  length-append (segment p.tid_list p.assign_ptr (p.maxtnum - p.assign_ptr))
      (segment p.tid_list 0 p.cancel_ptr),
)

-- The result of an operation on a pool, in terms of the queue of its free ids: no access outside
-- `tid_list`, a valid pool, and the result of the queue's operation.
abbrev pub Answers :
    {A : Type 0} → TidPool → FreeIds × Option A → Option (TidPool × Option A) → Type 0
Answers p expected none = ⊥
Answers p expected (some (q, r)) =
    IsValid q × (q.maxtnum ≡ p.maxtnum) × (expected ≡ (free_ids q, r))

pub map-id-append :
    (k l : List IdSlot) → map (λ s. s.id) (k ++ l) ≡ map (λ s. s.id) k ++ map (λ s. s.id) l
map-id-append [] l = refl
map-id-append (s ∷ k) l = ap (λ r. s.id ∷ r) (map-id-append k l)

pub length-free_ids : {p : TidPool} → IsValid p → length (free_ids p) ≡ p.tremainder
length-free_ids {p} v = length-map (free_slots p) (λ s. s.id) ∙ length-free_slots v
