-- ===== src/Host/Rows/Unique.antt =====
-- The rows of one time and one machine: a database that counts rows as they were written never gets
-- a second one.
use vnf_monitoring.Prelude.{
  ℕ, zero, suc, ◌+◌, ◌≤◌, ◌≡◌, refl, ap, ◌∙◌, ◌≢◌, ◌⊎◌, inl, inr, Bool, true, false, ◌&&◌, List, [],
  ◌∷◌, ◌++◌, map, append-nil, ◌==◌, if◌then◌else◌, arith, Bool-cases, take,
}
use vnf_monitoring.Prelude.Int.{ℤ, pos, negsuc}
use vnf_monitoring.Host.State.{VmcStatus, StateInfo, Host}
use vnf_monitoring.Host.Config.{same_text}
use vnf_monitoring.Host.Rows.{
  VmProcess, Write, insert, update, machine_row, write_machine, write_machines, write_baremetal,
  process_vm_proc_state_info, is_machine,
}

-- The `WHERE` of the statements: the same time and the same machine.
abbrev pub has_key : VmProcess → VmProcess → Bool
has_key k v = same_text k.time_stamp v.time_stamp && same_text k.vm_id v.vm_id

abbrev pub count_rows : VmProcess → List VmProcess → ℕ
count_rows k [] = 0
count_rows k (v ∷ t) = (if has_key k v then 1 else 0) + count_rows k t

-- What a statement makes of the rows of a table.
abbrev pub apply : Write → List VmProcess → List VmProcess
apply (insert v) t = v ∷ t
apply (update v) t = map (λ r. if has_key v r then v else r) t

abbrev pub apply_all : List Write → List VmProcess → List VmProcess
apply_all [] t = t
apply_all (w ∷ l) t = apply_all l (apply w t)

abbrev pub AtMostOne : List VmProcess → Type 0
AtMostOne t = (k : VmProcess) → count_rows k t ≤ 1

apply_all-append :
    (k l : List Write) (t : List VmProcess) → apply_all (k ++ l) t ≡ apply_all l (apply_all k t)
apply_all-append [] l t = refl
apply_all-append (w ∷ k) l t = apply_all-append k l (apply w t)

same_text-eq : (a b : List ℕ) → same_text a b ≡ true → a ≡ b
same_text-eq [] [] e = refl
same_text-eq [] (d ∷ b) e = cc
same_text-eq (c ∷ a) [] e = cc
same_text-eq (c ∷ a) (d ∷ b) e = ground (arith, same_text-eq a b)

-- Rows with the same key are the same to every key.
has_key-eq :
    (k v : VmProcess) → has_key k v ≡ true → (k.time_stamp ≡ v.time_stamp) × (k.vm_id ≡ v.vm_id)
has_key-eq k v e =
    ground (arith, same_text-eq k.time_stamp v.time_stamp, same_text-eq k.vm_id v.vm_id)

has_key-left : (k v r : VmProcess) → has_key k v ≡ true → has_key k r ≡ has_key v r
has_key-left k v r e =
    let (t, i) = has_key-eq k v e in
    ap (λ s. same_text s r.time_stamp && same_text k.vm_id r.vm_id) t
    ∙ ap (λ s. same_text v.time_stamp r.time_stamp && same_text s r.vm_id) i

has_key-right : (k v r : VmProcess) → has_key v r ≡ true → has_key k v ≡ has_key k r
has_key-right k v r e =
    let (t, i) = has_key-eq v r e in
    ap (λ s. same_text k.time_stamp s && same_text k.vm_id v.vm_id) t
    ∙ ap (λ s. same_text k.time_stamp r.time_stamp && same_text k.vm_id s) i

count_rows-left :
    (k v : VmProcess) (t : List VmProcess) → has_key k v ≡ true → count_rows k t ≡ count_rows v t
count_rows-left k v [] e = refl
count_rows-left k v (r ∷ t) e = rw (has_key-left k v r e, count_rows-left k v t e)

-- An update keeps the number of rows of every key.
count_rows-update :
    (k v : VmProcess) (t : List VmProcess) → count_rows k (apply (update v) t) ≡ count_rows k t
count_rows-update k v [] = refl
count_rows-update k v (r ∷ t) = elim (Bool-cases (has_key v r)) [
  | inl e ↦ rw (e, has_key-right k v r e, count_rows-update k v t)
  | inr e ↦ rw (e, count_rows-update k v t)
]

AtMostOne-insert :
    (v : VmProcess) (t : List VmProcess) → count_rows v t ≡ 0 → AtMostOne t → AtMostOne (v ∷ t)
AtMostOne-insert v t none one k = elim (Bool-cases (has_key k v)) [
  | inl e ↦ rw (e, count_rows-left k v t e, none) (omega arith)
  | inr e ↦ rw e (omega (arith, one k))
]

Nat-cases : (n : ℕ) → (n ≡ 0) ⊎ ((m : ℕ) × (n ≡ suc m))
Nat-cases zero = inl refl
Nat-cases (suc n) = inr (n, refl)

-- An update of the row, or nothing, as the second query decides.
update_or_none-AtMostOne :
    (c : ℤ) (v : VmProcess) (t : List VmProcess)
    → AtMostOne t
    → AtMostOne
        (apply_all (elim c [ pos zero ↦ update v ∷ [] | pos (suc k) ↦ [] | negsuc k ↦ [] ]) t)
update_or_none-AtMostOne (pos zero) v t one = λ k. rw (count_rows-update k v t) (one k)
update_or_none-AtMostOne (pos (suc c)) v t one = one
update_or_none-AtMostOne (negsuc c) v t one = one

-- The writes for one row, for the number of rows that the table has.
write_machine-AtMostOne :
    (select_count check : VmProcess → ℤ) (v : VmProcess) (t : List VmProcess)
    → select_count v ≡ pos (count_rows v t)
    → AtMostOne t
    → AtMostOne (apply_all (write_machine select_count check v) t)
unfolding write_machine
write_machine-AtMostOne select_count check v t e one = elim (Nat-cases (count_rows v t)) [
  | inl z ↦ rw (write_machine, e, z) (AtMostOne-insert v t z one)
  | inr (n, z) ↦ rw (write_machine, e, z) (update_or_none-AtMostOne (check v) v t one)
]

-- A count query that is answered with the rows of the table, after the writes so far.
abbrev pub CountsRows : (List Write → VmProcess → ℤ) → List VmProcess → Type 0
CountsRows select_count t =
    (written : List Write) (v : VmProcess)
    → select_count written v ≡ pos (count_rows v (apply_all written t))

write_machines-AtMostOne :
    (select_count check : List Write → VmProcess → ℤ) (ttime : List ℕ) (h : Host)
    (written : List Write) (l : List VmcStatus) (t : List VmProcess)
    → CountsRows select_count t
    → AtMostOne (apply_all written t)
    → AtMostOne (apply_all (write_machines select_count check ttime h written l) t)
unfolding write_machines
write_machines-AtMostOne select_count check ttime h written [] t counts one = one
write_machines-AtMostOne select_count check ttime h written (v ∷ l) t counts one =
    let row = machine_row ttime h v in
    let new = write_machine (select_count written) (check written) row in
    elim (Bool-cases (h.conf.cloud_mode == 1)) [
      | inl on ↦
          rw (write_machines, on)
            (write_machines-AtMostOne select_count check ttime h (written ++ new) l t counts (
              rw (apply_all-append written new t) (
                write_machine-AtMostOne (select_count written) (check written) row
                  (apply_all written t) (counts written row) one)))
      | inr off ↦
          rw (write_machines, off)
            (write_machines-AtMostOne select_count check ttime h (written ++ []) l t counts
              (rw (append-nil written) one))
    ]

write_baremetal-off :
    (ttime : List ℕ) (h : Host) (machines : List VmcStatus) (flag : Bool) (l : List StateInfo)
    → h.conf.baremetal_mode ≢ 1
    → write_baremetal ttime h machines flag l ≡ []
unfolding write_baremetal
write_baremetal-off ttime h machines flag [] off = refl
write_baremetal-off ttime h machines flag (s ∷ l) off = elim (Bool-cases (s.vm_ip == 0)) [
  | inl e ↦ rw (write_baremetal, e) (write_baremetal-off ttime h machines flag l off)
  | inr e ↦ elim (Bool-cases (if is_machine machines s then true else flag)) [
    | inl f ↦ rw (write_baremetal, e, f) (write_baremetal-off ttime h machines true l off)
    | inr f ↦
        let mode : (h.conf.baremetal_mode == 1) ≡ false = ground (arith, off) in
        rw (write_baremetal, e, f, mode) (write_baremetal-off ttime h machines false l off)
  ]
]

-- Where the server stores the rows of the cloud's machines alone, and the database answers the count
-- query with the rows that it holds, a table with one row at most for each time and machine has one
-- row at most for each of them after the pass, also if a machine is listed twice.
pub process_vm_proc_state_info-AtMostOne :
    (select_count check : List Write → VmProcess → ℤ) (ttime : List ℕ) (h : Host)
    (t : List VmProcess)
    → h.conf.baremetal_mode ≢ 1
    → CountsRows select_count t
    → AtMostOne t
    → AtMostOne (apply_all (process_vm_proc_state_info select_count check ttime h) t)
unfolding process_vm_proc_state_info
process_vm_proc_state_info-AtMostOne select_count check ttime h t off counts one =
    let machines = take h.conf.vm_count h.conf.vmc_status in
    rw
      (
        write_baremetal-off ttime h machines false h.stateinfo off,
        append-nil (write_machines select_count check ttime h [] machines),
      )
      (write_machines-AtMostOne select_count check ttime h [] machines t counts one)
