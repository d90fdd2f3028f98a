-- ===== src/Timer/Ids.antt =====
-- The pool of timer ids of src/CMLB/src/timer.c: `func_init_tid`, `func_assign_tid` and
-- `func_cancel_tid` over the globals `assign_ptr`, `cancel_ptr`, `comeback`, `maxtnum`,
-- `tremainder` and the array `tid_list`.
-- An operation returns `none` for an access outside `tid_list`; inside it stand the new pool and
-- the function's result, where `none` is the source's -1.
pub mod Spec
pub mod Inv
pub mod Assign
pub mod Cancel
pub mod Init
use vnf_monitoring.Prelude.{
  ℕ, zero, suc, ◌+◌, ◌-◌, Bool, true, false, ◌&&◌, Option, none, some, List, [], ◌∷◌, ltb, leb,
  if◌then◌else◌, length, get_elem?, set,
}
use vnf_monitoring.Prelude.Int.{ℤ, pos, negsuc}

-- `_id_list`
pub record IdSlot : Type 0 where
  pub flag : Bool
  pub id : ℕ

pub record TidPool : Type 0 where
  pub assign_ptr : ℕ
  pub cancel_ptr : ℕ
  pub comeback : Bool
  pub maxtnum : ℕ
  pub tremainder : ℕ
  pub tid_list : List IdSlot

abbrev pub PoolResult : Type 0 → Type 0
PoolResult A = Option (TidPool × Option A)

-- The loop `for (i = 0; i < max; i++)` of `func_init_tid`, from index `i` with `n` rounds left.
pub init_slots : ℕ → ℕ → List IdSlot
init_slots i zero = []
init_slots i (suc n) = record { flag = false; id = i + 1 } ∷ init_slots (i + 1) n

-- `func_init_tid`, where `malloc` succeeded.
pub func_init_tid : ℕ → TidPool
func_init_tid max = record {
  assign_ptr = 0;
  cancel_ptr = 0;
  comeback = false;
  maxtnum = max;
  tremainder = max;
  tid_list = init_slots 0 max;
}

-- `tid_list[assign_ptr]` holds `s` and is handed out; `assign_ptr` goes round at `maxtnum`.
pub advance_assign : TidPool → IdSlot → TidPool
advance_assign p s =
    let next = p.assign_ptr + 1 in
    let wraps = leb p.maxtnum next in
    record p {
      assign_ptr = if wraps then 0 else next;
      comeback = if wraps then true else p.comeback;
      tremainder = p.tremainder - 1;
      tid_list = set p.tid_list p.assign_ptr (record s { flag = true });
    }

pub take_slot : TidPool → PoolResult ℕ
take_slot p = elim (get_elem? p.tid_list p.assign_ptr) [
  | none ↦ none
  | some s ↦ if s.flag then some (p, none) else some (advance_assign p s, some s.id)
]

-- `func_assign_tid`
pub func_assign_tid : TidPool → PoolResult ℕ
unfolding take_slot
func_assign_tid p =
    if leb p.tremainder 0
    then some (p, none)
    else if p.comeback
    then (if ltb p.assign_ptr p.cancel_ptr then take_slot p else some (p, none))
    else take_slot p

-- `i` is stored at `tid_list[cancel_ptr]`, and `cancel_ptr` goes round at `maxtnum`.
pub advance_cancel : TidPool → ℕ → TidPool
advance_cancel p i =
    let next = p.cancel_ptr + 1 in
    let wraps = leb p.maxtnum next in
    let more = p.tremainder + 1 in
    record p {
      cancel_ptr = if wraps then 0 else next;
      comeback = if wraps then false else p.comeback;
      tremainder = if ltb p.maxtnum more then p.maxtnum else more;
      tid_list = set p.tid_list p.cancel_ptr (record { flag = false; id = i });
    }

pub return_slot : TidPool → ℕ → PoolResult (Unit {0})
return_slot p i =
    if ltb p.cancel_ptr (length p.tid_list) then some (advance_cancel p i, some tt) else none

-- `func_cancel_tid`
pub func_cancel_tid : TidPool → ℤ → PoolResult (Unit {0})
unfolding return_slot
func_cancel_tid p (negsuc n) = some (p, none)
func_cancel_tid p (pos i) =
    if ltb 0 i && leb i p.maxtnum
    then (if p.comeback
        then return_slot p i
        else if ltb p.cancel_ptr p.assign_ptr
        then return_slot p i
        else some (p, none))
    else some (p, none)
