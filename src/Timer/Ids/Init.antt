-- ===== src/Timer/Ids/Init.antt =====
-- `func_init_tid` of src/CMLB/src/timer.c: the pool that it makes.
use vnf_monitoring.Prelude.{
  ℕ, zero, suc, ◌+◌, ◌<◌, ◌≡◌, refl, ap, [], ◌∷◌, map, arith, length, segment, segment-zero,
  segment-all, append-nil,
}
use vnf_monitoring.Timer.Ids.{func_init_tid, init_slots}
use vnf_monitoring.Timer.Ids.Spec.{FreeIds}
use vnf_monitoring.Timer.Ids.Inv.{free_slots, free_ids, AllUnused, IsValid}

unfoldable pub ids_from : ℕ → ℕ → FreeIds
ids_from i zero = []
ids_from i (suc n) = i ∷ ids_from (i + 1) n

length-init_slots : (i n : ℕ) → length (init_slots i n) ≡ n
unfolding init_slots
length-init_slots i zero = refl
length-init_slots i (suc n) = ap suc (length-init_slots (i + 1) n)

AllUnused-init_slots : (i n : ℕ) → AllUnused (init_slots i n)
unfolding init_slots
AllUnused-init_slots i zero = tt
AllUnused-init_slots i (suc n) = (refl, AllUnused-init_slots (i + 1) n)

map-id-init_slots : (i n : ℕ) → map (λ s. s.id) (init_slots i n) ≡ ids_from (i + 1) n
unfolding init_slots ids_from
map-id-init_slots i zero = refl
map-id-init_slots i (suc n) = ap (λ l. (i + 1) ∷ l) (map-id-init_slots (i + 1) n)

free_slots-init : (max : ℕ) → free_slots (func_init_tid max) ≡ init_slots 0 max
unfolding func_init_tid
free_slots-init max = ground (
  arith,
  append-nil (segment (init_slots 0 max) 0 max),
  segment-zero (init_slots 0 max) 0,
  segment-all (init_slots 0 max),
  length-init_slots 0 max,
)

-- A fresh pool of at least one id is valid, and 1 … `max` are free in order.
pub func_init_tid-IsValid :
    (max : ℕ)
    → 0 < max
    → IsValid (func_init_tid max) × (free_ids (func_init_tid max) ≡ ids_from 1 max)
func_init_tid-IsValid max h = (
  record {
    assign_in = unfold func_init_tid in h;
    cancel_in = unfold func_init_tid in h;
    cells = unfold func_init_tid in length-init_slots 0 max;
    straight = λ e. unfold func_init_tid in omega arith;
    wrapped = λ e. unfold func_init_tid in cc;
    unused = rw (free_slots-init max) (AllUnused-init_slots 0 max);
  },
  rw (free_slots-init max) (map-id-init_slots 0 max),
)

pub maxtnum-func_init_tid : (max : ℕ) → (func_init_tid max).maxtnum ≡ max
unfolding func_init_tid
maxtnum-func_init_tid max = refl
