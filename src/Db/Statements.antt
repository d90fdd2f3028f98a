-- ===== src/Db/Statements.antt =====
-- The texts of the statements: the formats of src/PQMB/hdr/pqmb_main.h and
-- src/DBMB/hdr/dbmb_main.h, and the arguments that the two blocks give to `sprintf`.
pub mod Bounds
use vnf_monitoring.Prelude.{
  digits, ℕ, zero, suc, ◌+◌, ◌/◌, ◌%◌, Bool, true, false, List, [], ◌∷◌, ◌++◌, ◌==◌, ltb,
  if◌then◌else◌, codes,
}
use vnf_monitoring.Host.State.{ProcessState}
use vnf_monitoring.Host.Rows.{VmProcess}

-- An argument of `sprintf`, for `%s` and for `%hu`.
pub data Arg : Type 0 where
  text : List ℕ → Arg
  short : ℕ → Arg

pub print_arg : Arg → List ℕ
unfolding digits
print_arg (text s) = s
print_arg (short n) = digits 5 (n % 65536)

pub print_next : List Arg → List ℕ
unfolding print_arg
print_next [] = []
print_next (a ∷ l) = print_arg a

abbrev pub rest : List Arg → List Arg
rest [] = []
rest (a ∷ l) = l

-- How far a conversion has been read: none, `%`, `%h`.
pub data Mode : Type 0 where
  plain percent half : Mode

-- The directives are `%s` and `%hu`; the formats hold no other.
abbrev pub next_mode : Mode → ℕ → Mode
next_mode plain c = if c == b'%' then percent else plain
next_mode percent c = if c == b'h' then half else plain
next_mode half c = plain

abbrev pub ends_directive : Mode → ℕ → Bool
ends_directive plain c = false
ends_directive percent c = if c == b'h' then false else true
ends_directive half c = true

pub print_char : Mode → ℕ → List Arg → List ℕ
unfolding print_next
print_char plain c l = if c == b'%' then [] else c ∷ []
print_char percent c l = if c == b'h' then [] else print_next l
print_char half c l = print_next l

pub sprintf_from : Mode → List ℕ → List Arg → List ℕ
unfolding print_char
sprintf_from m [] l = []
sprintf_from m (c ∷ f) l =
    print_char m c l ++ sprintf_from (next_mode m c) f (if ends_directive m c then rest l else l)

unfoldable pub sprintf : List ℕ → List Arg → List ℕ
unfolding sprintf_from
sprintf f l = sprintf_from plain f l

-- `BYPASS_VM_STATE_INFO_TB`, as the Makefile of src/PQMB defines `__TEST__`, and
-- `ORCHESTRATOR_VM_STATE_TB`.
abbrev pub bypass_vm_state_info_tb : List ℕ
bypass_vm_state_info_tb = codes "bypass_vm_state_info"

abbrev pub orchestrator_vm_state_tb : List ℕ
orchestrator_vm_state_tb = codes "bypass_vm_state_info"

unfoldable pub select_count_vm_state_info : List ℕ
select_count_vm_state_info =
    codes "SELECT COUNT(*) FROM %s WHERE create_time = '%s' AND vm_id = '%s'"

pub insert_vm_state_info : List ℕ
unfolding codes
insert_vm_state_info =
    (codes "INSERT INTO %s (create_time, vm_id, vm_name, host_name, vm_type, vm_state, vm_"
      ++ (codes "power_state, vm_process1_name, vm_process1_state, vm_process2_name, vm_process"
          ++ (codes "2_state, vm_process3_name, vm_process3_state, vm_process4_name, vm_process4_st"
              ++ (codes
                    "ate, vm_process5_name, vm_process5_state, vm_process6_name, vm_process6_state,"
                  ++ (codes
                        " vm_process7_name, vm_process7_state, vm_process8_name, vm_process8_state, vm_"
                      ++ (codes
                            "process9_name, vm_process9_state, vm_process10_name, vm_process10_state, vm_pr"
                          ++ (codes
                                "ocess11_name, vm_process11_state, vm_process12_name, vm_process12_state, bypas"
                              ++ (codes
                                    "s_mode_state, host_ip, process_count) VALUES ('%s', '%s', '%s', '%s', %hu, %hu"
                                  ++ (codes
                                        ", %hu, '%s', %hu, '%s', %hu, '%s', %hu, '%s', %hu, '%s', %hu, '%s', %hu, '%s',"
                                      ++ codes
                                          " %hu, '%s', %hu, '%s', %hu, '%s', %hu, '%s', %hu, '%s', %hu, %hu, '%s', %hu)")))))))))

pub update_vm_state_info : List ℕ
unfolding codes
update_vm_state_info =
    (codes "UPDATE %s SET create_time = '%s', vm_id = '%s', vm_name = '%s', host_name = '%"
      ++ (codes "s', vm_type = %hu, vm_state = %hu, vm_power_state = %hu, vm_process1_name = '%"
          ++ (codes "s', vm_process1_state = %hu, vm_process2_name = '%s', vm_process2_state = %hu,"
              ++ (codes
                    " vm_process3_name = '%s', vm_process3_state = %hu, vm_process4_name = '%s', vm"
                  ++ (codes
                        "_process4_state = %hu, vm_process5_name = '%s', vm_process5_state = %hu, vm_pr"
                      ++ (codes
                            "ocess6_name = '%s', vm_process6_state = %hu, vm_process7_name = '%s', vm_proce"
                          ++ (codes
                                "ss7_state = %hu, vm_process8_name = '%s', vm_process8_state = %hu, vm_process9"
                              ++ (codes
                                    "_name = '%s', vm_process9_state = %hu, vm_process10_name = '%s', vm_process10_"
                                  ++ (codes
                                        "state = %hu, vm_process11_name = '%s', vm_process11_state = %hu, vm_process12_"
                                      ++ (codes
                                            "name = '%s', vm_process12_state = %hu, bypass_mode_state = %hu, host_ip = '%s'"
                                          ++ codes
                                              ", process_count = %hu WHERE create_time = '%s' AND vm_id = '%s'"))))))))))

pub select_process_count_vm_state_info : List ℕ
select_process_count_vm_state_info =
    codes "SELECT process_count FROM %s WHERE create_time = '%s' AND vm_id = '%s'"

-- `INSERT_VM_STATE_INFO` of src/DBMB/hdr/dbmb_main.h.
pub insert_orche_vm_state_info : List ℕ
unfolding codes
insert_orche_vm_state_info =
    (codes "INSERT INTO %s VALUES ('%s', '%s', '%s', '%s', '%s', %hu, %hu, %hu, %hu, '%s',"
      ++ (codes " %hu, '%s', %hu, '%s', %hu, '%s', %hu, '%s', %hu, '%s', %hu, '%s', %hu, '%s', "
          ++ codes "%hu, '%s', %hu, '%s', %hu, '%s', %hu, '%s', %hu, %hu)"))

-- The names and states of the first processes.
pub pstate_args : ℕ → List ProcessState → List Arg
pstate_args zero l = []
pstate_args (suc n) [] = text [] ∷ short 0 ∷ pstate_args n []
pstate_args (suc n) (p ∷ l) = text p.process_name ∷ short p.process_state ∷ pstate_args n l

-- The argument lists of `PQ_InsertVMStateInfo`, `PQ_UpdateVMStateInfo`, of the two queries, and of
-- `OrcheInsertVMStateInfo`.
pub insert_args : VmProcess → List Arg
unfolding pstate_args
insert_args v =
    text bypass_vm_state_info_tb
    ∷ text v.time_stamp
    ∷ text v.vm_id
    ∷ text v.vm_name
    ∷ text v.host_id
    ∷ short v.vm_type
    ∷ short v.vm_state
    ∷ short v.vm_power_state
    ∷ (pstate_args 12 v.pstate ++ short v.bp_state ∷ text v.host_ip ∷ short v.vm_process_count ∷ [])

unfoldable pub key_args : VmProcess → List Arg
key_args v = text bypass_vm_state_info_tb ∷ text v.time_stamp ∷ text v.vm_id ∷ []

pub update_args : VmProcess → List Arg
unfolding insert_args
update_args v = insert_args v ++ text v.time_stamp ∷ text v.vm_id ∷ []

pub orche_args : VmProcess → List Arg
unfolding pstate_args
orche_args v =
    text orchestrator_vm_state_tb
    ∷ text v.time_stamp
    ∷ text v.vm_id
    ∷ text v.vm_name
    ∷ text v.host_id
    ∷ text v.host_ip
    ∷ short v.vm_type
    ∷ short v.vm_state
    ∷ short v.vm_power_state
    ∷ short v.vm_process_count
    ∷ (pstate_args 12 v.pstate ++ short v.bp_state ∷ [])

-- The statements.
pub insert_text : VmProcess → List ℕ
insert_text v = sprintf insert_vm_state_info (insert_args v)

pub update_text : VmProcess → List ℕ
update_text v = sprintf update_vm_state_info (update_args v)

unfoldable pub count_text : VmProcess → List ℕ
count_text v = sprintf select_count_vm_state_info (key_args v)

pub process_count_text : VmProcess → List ℕ
process_count_text v = sprintf select_process_count_vm_state_info (key_args v)

pub orche_insert_text : VmProcess → List ℕ
orche_insert_text v = sprintf insert_orche_vm_state_info (orche_args v)
