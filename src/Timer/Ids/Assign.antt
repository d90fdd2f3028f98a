-- ===== src/Timer/Ids/Assign.antt =====
-- `func_assign_tid` of src/CMLB/src/timer.c against the queue of free ids.
use vnf_monitoring.Prelude.{
  ℕ, ap, map, ◌∙◌, ◌+◌, ◌-◌, ◌<◌, ◌≡◌, refl, true, false, none, some, List, [], ◌∷◌, arith, length,
  get_elem?, set, segment-zero, segment-set_after, segment-front, dec_lt, length-set,
  get_elem?-some,
}
use vnf_monitoring.Timer.Ids.{IdSlot, TidPool, advance_assign, take_slot, func_assign_tid}
use vnf_monitoring.Timer.Ids.Spec.{take_id}
use vnf_monitoring.Timer.Ids.Inv.{
  free_slots, free_ids, AllUnused, IsValid, length-free_slots, Answers,
}

front-unused :
    (s : IdSlot) (k l : List IdSlot) → k ≡ s ∷ l → AllUnused k → (s.flag ≡ false) × AllUnused l
front-unused s k l e h = ground (arith, h)

module _ {p : TidPool} (v : IsValid p) (room : 0 < p.tremainder) (s : IdSlot)
    (at : get_elem? p.tid_list p.assign_ptr ≡ some s) where
  abbrev used : IdSlot
  used = record s { flag = true }

  free_slots-advance_assign : free_slots p ≡ s ∷ free_slots (advance_assign p s)
  unfolding advance_assign
  free_slots-advance_assign = ground (
    arith,
    v.straight,
    v.wrapped,
    segment-front p.tid_list p.assign_ptr (p.cancel_ptr - p.assign_ptr) s used,
    segment-front p.tid_list p.assign_ptr (p.maxtnum - p.assign_ptr) s used,
    segment-set_after p.tid_list 0 p.cancel_ptr p.assign_ptr used,
    segment-zero (set p.tid_list p.assign_ptr used) (p.assign_ptr + 1),
  )

  advance_assign-IsValid : IsValid (advance_assign p s)
  unfolding advance_assign
  advance_assign-IsValid = record {
    assign_in = ground (arith, v.straight, v.wrapped);
    cancel_in = v.cancel_in;
    cells = omega (arith, length-set p.tid_list p.assign_ptr used, v.cells);
    straight = ground (arith, v.straight, v.wrapped);
    wrapped = ground (arith, v.straight, v.wrapped);
    unused =
        (front-unused s (free_slots p) (free_slots (advance_assign p s)) free_slots-advance_assign
          v.unused).1;
  }

unused_flag :
    {p : TidPool} (v : IsValid p) (room : 0 < p.tremainder) (s : IdSlot)
    (at : get_elem? p.tid_list p.assign_ptr ≡ some s)
    → s.flag ≡ false
unused_flag {p} v room s at =
    (front-unused s (free_slots p) (free_slots (advance_assign p s))
      (free_slots-advance_assign v room s at) v.unused).0

take_slot-some :
    (p : TidPool) (s : IdSlot)
    → get_elem? p.tid_list p.assign_ptr ≡ some s
    → s.flag ≡ false
    → take_slot p ≡ some (advance_assign p s, some s.id)
unfolding take_slot
take_slot-some p s at unused = ground arith

take_slot-Answers :
    {p : TidPool} → IsValid p → 0 < p.tremainder → Answers p (take_id (free_ids p)) (take_slot p)
unfolding take_id
take_slot-Answers {p} v room =
    let (s, at) = get_elem?-some p.tid_list p.assign_ptr (omega (arith, v.assign_in, v.cells)) in
    rw (take_slot-some p s at (unused_flag v room s at), free_slots-advance_assign v room s at)
      (advance_assign-IsValid v room s at, unfold advance_assign in refl, refl)

empty-of-length : (l : List IdSlot) → length l ≡ 0 → l ≡ []
empty-of-length [] h = refl
empty-of-length (x ∷ l) h = absurd (omega arith)

no_room : {p : TidPool} → IsValid p → p.tremainder ≡ 0 → free_slots p ≡ []
no_room {p} v e = empty-of-length (free_slots p) (omega (arith, length-free_slots v))

func_assign_tid-empty :
    {p : TidPool} → IsValid p → p.tremainder ≡ 0 → Answers p (take_id (free_ids p)) (some (p, none))
unfolding take_id
func_assign_tid-empty {p} v e = (v, refl, rw (no_room v e))

-- With a free id `func_assign_tid` comes to the array.
func_assign_tid-room :
    {p : TidPool} → IsValid p → 0 < p.tremainder → func_assign_tid p ≡ take_slot p
unfolding func_assign_tid
func_assign_tid-room {p} v room = ground (arith, v.straight, v.wrapped)

pub func_assign_tid-full : (p : TidPool) → p.tremainder ≡ 0 → func_assign_tid p ≡ some (p, none)
unfolding func_assign_tid
func_assign_tid-full p e = ground arith

-- On a valid pool `func_assign_tid` stays inside `tid_list`, keeps the pool valid, and answers as the
-- queue of free ids does: it hands out the id that has been free for longest, and fails when none is free.
pub func_assign_tid-refines :
    {p : TidPool} → IsValid p → Answers p (take_id (free_ids p)) (func_assign_tid p)
func_assign_tid-refines {p} v = elim (dec_lt 0 p.tremainder) [
  | yes room ↦ rw (func_assign_tid-room v room) (take_slot-Answers v room)
  | no full ↦ rw (func_assign_tid-full p (omega arith)) (func_assign_tid-empty v (omega arith))
]

-- With a free id the first one is handed out.
pub func_assign_tid-some :
    {p : TidPool}
    → IsValid p
    → 0 < p.tremainder
    → (i : ℕ) × (q : TidPool) × (func_assign_tid p ≡ some (q, some i))
      × IsValid q
      × (q.maxtnum ≡ p.maxtnum)
      × (free_ids p ≡ i ∷ free_ids q)
func_assign_tid-some {p} v room =
    let (s, at) = get_elem?-some p.tid_list p.assign_ptr (omega (arith, v.assign_in, v.cells)) in
    (
      s.id,
      advance_assign p s,
      func_assign_tid-room v room ∙ take_slot-some p s at (unused_flag v room s at),
      advance_assign-IsValid v room s at,
      unfold advance_assign in refl,
      ap (map (λ s. s.id)) (free_slots-advance_assign v room s at),
    )
