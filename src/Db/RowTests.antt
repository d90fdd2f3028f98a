-- ===== src/Db/RowTests.antt =====
-- The rows and their statements on concrete values.
use vnf_monitoring.Prelude.{
  ℕ, suc, ◌+◌, ◌≡◌, refl, ◌<◌, false, none, some, List, [], ◌∷◌, ◌++◌, length, ◌==◌, if◌then◌else◌,
  arith, codes,
}
use vnf_monitoring.Prelude.Int.{ℤ, pos}
use vnf_monitoring.Host.State.{Host, zero_status, zero_system, cleared_state}
use vnf_monitoring.Host.Rows.{VmProcess, Write, process_vm_proc_state_info}
use vnf_monitoring.Host.Rows.Unique.{
  AtMostOne, apply_all, count_rows, process_vm_proc_state_info-AtMostOne,
}
use vnf_monitoring.Db.Statements.{
  text, short, insert_text, update_text, count_text, process_count_text, orche_insert_text, sprintf,
  key_args, select_count_vm_state_info,
}
use vnf_monitoring.Db.Statements.Bounds.{Fits, statements-fit}
use vnf_monitoring.Db.Postgres.{
  login, finish, exec, clear, History, Library, tuples_ok, Pq, pq_select_count_vm_state_info,
  pq_check_vm_state_info, pq_update_vm_state_info, select_number, pq_exec_select_query,
  pq_exec_query,
}
use vnf_monitoring.Db.Postgres.Rows.{store_machine, store_checked, store_counted}

abbrev row : VmProcess
row = record {
  time_stamp = codes "20140811100000";
  vm_id = codes "8f0c";
  vm_name = codes "utm1";
  host_id = codes "node1";
  host_ip = codes "10.0.0.7";
  vm_type = 1;
  vm_state = 1;
  vm_power_state = 1;
  bp_state = 2;
  vm_process_count = 1;
  pstate = record { process_name = codes "utmd"; process_state = 1 } ∷ [];
}

-- The conversions are filled in from the arguments.
count_text_example :
    count_text row
    ≡ codes "SELECT COUNT(*) FROM bypass_vm_state_info "
      ++ codes "WHERE create_time = '20140811100000' AND vm_id = '8f0c'"
unfolding count_text sprintf key_args select_count_vm_state_info codes
count_text_example = refl

shorts_wrap : sprintf (codes "%s: %hu") (text (codes "n") ∷ short 65543 ∷ []) ≡ codes "n: 7"
unfolding sprintf codes
shorts_wrap = refl

row-Fits : Fits row
unfolding codes
row-Fits = record {
  time_stamp = omega arith;
  vm_id = omega arith;
  vm_name = omega arith;
  host_id = omega arith;
  host_ip = omega arith;
  names = (omega arith, tt);
}

statements-fit_example :
    (length (insert_text row) < 4096)
    × (length (update_text row) < 4096)
    × (length (count_text row) < 4096)
    × (length (process_count_text row) < 4096)
    × (length (orche_insert_text row) < 4096)
statements-fit_example = statements-fit row row-Fits

-- A result after the highest one that is open.
abbrev next_result : History → ℕ
next_result [] = 0
next_result (login w q ∷ h) = next_result h
next_result (finish q ∷ h) = next_result h
next_result (exec c t none ∷ h) = next_result h
next_result (exec c t (some q) ∷ h) = suc (q + next_result h)
next_result (clear r ∷ h) = next_result h

-- A database that has one row with no process.
abbrev answering : Library
answering = record {
  new_connection = λ w h. some 0;
  is_bad = λ p h. false;
  result = λ c t h. some (next_result h);
  result_status = λ q h. tuples_ok;
  first_number = λ r h. some (if next_result h == 1 then pos 1 else pos 0);
}

abbrev pq : Pq
pq = record {
  conn1 = some 0;
  conn2 = some 0;
  manager = none;
  pq_db_parm = record { address = []; user_id = []; password = []; db_name = []; port = 5432 };
  calls = [];
}

-- The statements that were sent, the newest first.
abbrev sent : History → List (List ℕ)
sent [] = []
sent (exec conn query r ∷ h) = query ∷ sent h
sent (login w q ∷ h) = sent h
sent (finish q ∷ h) = sent h
sent (clear r ∷ h) = sent h

-- The row is there, with no process: it is updated.
store_machine_updates :
    sent (store_machine answering row pq).0.calls
    ≡ update_text row ∷ process_count_text row ∷ count_text row ∷ []
unfolding store_machine store_counted store_checked pq_select_count_vm_state_info
    pq_check_vm_state_info pq_update_vm_state_info select_number pq_exec_select_query pq_exec_query
store_machine_updates = refl

-- A machine that the cloud lists twice.
abbrev twice : Host
twice = record {
  conf = record {
    bp_mode = 2;
    vm_count = 2;
    vmc_mode = 2;
    tcp_mode = 2;
    baremetal_mode = 0;
    cloud_mode = 1;
    vmc_system = zero_system ∷ [];
    vmc_status = record zero_status { vm_ipaddr = 20 } ∷ record zero_status { vm_ipaddr = 20 } ∷ [];
  };
  base_pstate = [];
  stateinfo = record (cleared_state []) { vm_ip = 20; pcount = 1 } ∷ [];
  check_tcpstatus_min = 3;
}

abbrev counting : List Write → VmProcess → ℤ
counting written v = pos (count_rows v (apply_all written []))

process_vm_proc_state_info-AtMostOne_example :
    AtMostOne (apply_all (process_vm_proc_state_info counting (λ w v. pos 0) [] twice) [])
process_vm_proc_state_info-AtMostOne_example =
    process_vm_proc_state_info-AtMostOne counting (λ w v. pos 0) [] twice [] (omega arith)
      (λ w v. refl) (λ k. omega arith)
