-- ===== src/Timer/Ids/Cancel.antt =====
-- `func_cancel_tid` of src/CMLB/src/timer.c against the queue of free ids.
use vnf_monitoring.Prelude.{
  ℕ, ◌-◌, ◌≤◌, ◌<◌, ◌≡◌, refl, ap, ◌∙◌, false, none, some, [], ◌∷◌, ◌++◌, map, arith, length, set,
  segment, segment-zero, segment-set_before, dec_lt, subst, sym, ◌⊎◌, segment-set_end, length-set,
  append-nil, append_assoc,
}
use vnf_monitoring.Prelude.Int.{ℤ, pos, negsuc, ◌≤ℤ◌, ◌<ℤ◌}
use vnf_monitoring.Timer.Ids.{IdSlot, TidPool, advance_cancel, return_slot, func_cancel_tid}
use vnf_monitoring.Timer.Ids.Spec.{FreeIds, put_id}
use vnf_monitoring.Timer.Ids.Inv.{
  free_slots, free_ids, AllUnused, IsValid, AllUnused-append, Answers, map-id-append,
  length-free_ids,
}

abbrev freed : ℕ → IdSlot
freed i = record { flag = false; id = i }

module _ {p : TidPool} (v : IsValid p) (i : ℕ) (out : p.tremainder < p.maxtnum) where
  free_slots-advance_cancel : free_slots (advance_cancel p i) ≡ free_slots p ++ (freed i ∷ [])
  unfolding advance_cancel
  free_slots-advance_cancel = ground (
    arith,
    v.straight,
    v.wrapped,
    segment-set_end p.tid_list p.assign_ptr (p.cancel_ptr - p.assign_ptr) p.cancel_ptr (freed i),
    segment-set_end p.tid_list 0 p.cancel_ptr p.cancel_ptr (freed i),
    segment-set_before p.tid_list p.assign_ptr (p.maxtnum - p.assign_ptr) p.cancel_ptr (freed i),
    segment-zero (set p.tid_list p.cancel_ptr (freed i)) 0,
    append-nil (segment p.tid_list p.assign_ptr (p.cancel_ptr - p.assign_ptr) ++ (freed i ∷ [])),
    append_assoc (segment p.tid_list p.assign_ptr (p.maxtnum - p.assign_ptr))
        (segment p.tid_list 0 p.cancel_ptr) (freed i ∷ []),
  )

  advance_cancel-IsValid : IsValid (advance_cancel p i)
  unfolding advance_cancel
  advance_cancel-IsValid = record {
    assign_in = v.assign_in;
    cancel_in = ground (arith, v.straight, v.wrapped);
    cells = omega (arith, length-set p.tid_list p.cancel_ptr (freed i), v.cells);
    straight = ground (arith, v.straight, v.wrapped);
    wrapped = ground (arith, v.straight, v.wrapped);
    unused =
        subst AllUnused (sym free_slots-advance_cancel)
          (AllUnused-append (free_slots p) _ v.unused (refl, tt));
  }

  -- A slot comes back while some id is out.
  return_slot-some : return_slot p i ≡ some (advance_cancel p i, some tt)
  unfolding return_slot
  return_slot-some = ground (arith, v.cancel_in, v.cells)

func_cancel_tid-out :
    {p : TidPool}
    → IsValid p
    → p.tremainder < p.maxtnum
    → (i : ℕ) → 0 < i
    → i ≤ p.maxtnum
    → func_cancel_tid p (pos i) ≡ some (advance_cancel p i, some tt)
unfolding func_cancel_tid
func_cancel_tid-out {p} v out i low high =
    ground (arith, v.straight, v.wrapped, return_slot-some v i out)

func_cancel_tid-all_free :
    {p : TidPool}
    → IsValid p
    → p.maxtnum ≤ p.tremainder
    → (i : ℕ) → func_cancel_tid p (pos i) ≡ some (p, none)
unfolding func_cancel_tid
func_cancel_tid-all_free {p} v full i = ground (arith, v.straight, v.wrapped)

put_id-room :
    (max : ℕ) (q : FreeIds) (i : ℕ) → length q < max → put_id max q i ≡ (q ++ (i ∷ []), some tt)
unfolding put_id
put_id-room max q i h = ground arith

put_id-all_free : (max : ℕ) (q : FreeIds) (i : ℕ) → max ≤ length q → put_id max q i ≡ (q, none)
unfolding put_id
put_id-all_free max q i h = ground arith

-- On a valid pool, for an id in range, `func_cancel_tid` stays inside `tid_list`, keeps the pool valid,
-- and answers as the queue of free ids does: the id becomes the last free one, unless all ids are free.
pub func_cancel_tid-refines :
    {p : TidPool}
    → IsValid p
    → (i : ℕ) → 0 < i
    → i ≤ p.maxtnum
    → Answers p (put_id p.maxtnum (free_ids p) i) (func_cancel_tid p (pos i))
func_cancel_tid-refines {p} v i low high = elim (dec_lt p.tremainder p.maxtnum) [
  | yes out ↦
      rw
        (
          func_cancel_tid-out v out i low high,
          put_id-room p.maxtnum (free_ids p) i (omega (arith, length-free_ids v)),
        )
        (
          advance_cancel-IsValid v i out,
          unfold advance_cancel in refl,
          ap (λ l. (l, some tt))
              (sym (
                ap (map (λ s. s.id)) (free_slots-advance_cancel v i out)
                ∙ map-id-append (free_slots p) (freed i ∷ []))),
        )
  | no all ↦
      rw
        (
          func_cancel_tid-all_free v (omega arith) i,
          put_id-all_free p.maxtnum (free_ids p) i (omega (arith, length-free_ids v)),
        )
        (v, refl, refl)
]

-- Ids outside 1 … `maxtnum` are refused, and the pool is left alone.
pub func_cancel_tid-out_of_range :
    (p : TidPool) (i : ℤ)
    → ((i ≤ℤ pos 0) ⊎ (pos p.maxtnum <ℤ i))
    → func_cancel_tid p i ≡ some (p, none)
unfolding func_cancel_tid
func_cancel_tid-out_of_range p (negsuc n) h = refl
func_cancel_tid-out_of_range p (pos i) h = ground arith

-- While some id is out, an id in range becomes the last free one.
pub func_cancel_tid-some :
    {p : TidPool}
    → IsValid p
    → p.tremainder < p.maxtnum
    → (i : ℕ) → 0 < i
    → i ≤ p.maxtnum
    → (q : TidPool) × (func_cancel_tid p (pos i) ≡ some (q, some tt))
      × IsValid q
      × (q.maxtnum ≡ p.maxtnum)
      × (free_ids q ≡ free_ids p ++ (i ∷ []))
func_cancel_tid-some {p} v out i low high = (
  advance_cancel p i,
  func_cancel_tid-out v out i low high,
  advance_cancel-IsValid v i out,
  unfold advance_cancel in refl,
  ap (map (λ s. s.id)) (free_slots-advance_cancel v i out)
      ∙ map-id-append (free_slots p) (freed i ∷ []),
)
