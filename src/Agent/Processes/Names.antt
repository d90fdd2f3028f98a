-- ===== src/Agent/Processes/Names.antt =====
-- The names that `ReadUtmProcessConfig` of src/VMCT/src/vmct_conf.c reads.
use vnf_monitoring.Prelude.{
  ℕ, suc, ◌≤◌, ◌<◌, ◌≢◌, inl, inr, Bool, true, false, not, ◌&&◌, Bool-cases, List, [], ◌∷◌, ◌++◌,
  ◌==◌, ltb, leb, length, length-append, All, Leaves, arith,
}
use vnf_monitoring.Wire.{text_of}
use vnf_monitoring.Wire.RoundTrip.{IsText}
use vnf_monitoring.Agent.Report.{max_vm_proc_num}
use vnf_monitoring.Agent.Processes.{
  subline_size, process_name_size, is_empty, read_processes, read_utm_process_config,
}

-- The names fit the agent's configuration and its message.
abbrev pub Fit : List (List ℕ) → Type 0
Fit names = All (IsText 64) names × (length names ≤ max_vm_proc_num)

text_of-nonzero : (l : List ℕ) → All (λ c. c ≢ 0) (text_of l)
unfolding text_of
text_of-nonzero [] = tt
text_of-nonzero (c ∷ l) = elim (Bool-cases (c == 0)) [
  | inl e ↦ rw (text_of, e) tt
  | inr e ↦ rw (text_of, e) ((λ z. ground (arith, e, z)), text_of-nonzero l)
]

All-append_one :
    (names : List (List ℕ)) (t : List ℕ)
    → All (IsText 64) names
    → IsText 64 t
    → All (IsText 64) (names ++ (t ∷ []))
All-append_one [] t a h = (h, tt)
All-append_one (n ∷ names) t a h = (a.0, All-append_one names t a.1 h)

read_processes-Fit :
    (file : List ℕ) (b : Bool) (subline : List ℕ) (names : List (List ℕ))
    → All (IsText 64) names
    → length names < max_vm_proc_num
    → Leaves Fit (read_processes file b subline names)
unfolding read_processes
read_processes-Fit [] true subline names a h = tt
read_processes-Fit [] false subline names a h = (a, omega (arith, h))
read_processes-Fit (c ∷ file) true subline names a h =
    read_processes-Fit file (not (c == 10)) subline names a h
read_processes-Fit (c ∷ file) false subline names a h = elim (Bool-cases (c == 35)) [
  | inl e ↦ rw (read_processes, e) (read_processes-Fit file true subline names a h)
  | inr e ↦ elim (Bool-cases ((c == 10) && not (is_empty (text_of subline)))) [
    | inr f ↦ elim (Bool-cases (ltb (length subline) subline_size)) [
      | inr g ↦ rw (Leaves, read_processes, e, f, g) tt
      | inl g ↦
          rw (read_processes, e, f, g)
            (read_processes-Fit file false (subline ++ (c ∷ [])) names a h)
    ]
    | inl f ↦ elim (Bool-cases (ltb (length (text_of subline)) process_name_size)) [
      | inr g ↦ rw (Leaves, read_processes, e, f, g) tt
      | inl g ↦
          let one : IsText 64 (text_of subline) = (ground (arith, g), text_of-nonzero subline) in
          let more = All-append_one names (text_of subline) a one in
          let longer = length-append names (text_of subline ∷ []) in
          elim (Bool-cases (leb max_vm_proc_num (suc (length names)))) [
            | inl k ↦ rw (Leaves, read_processes, e, f, g, k) (more, omega (arith, h, longer))
            | inr k ↦
                let room : suc (length names) < max_vm_proc_num = ground (arith, k) in
                rw (read_processes, e, f, g, k)
                  (read_processes-Fit file false [] (names ++ (text_of subline ∷ [])) more
                    (omega (arith, room, longer)))
          ]
    ]
  ]
]

-- Whatever the file holds, the names that `ReadUtmProcessConfig` accepts are at most 12, and each fits
-- its array of 64 bytes with its end.
pub read_utm_process_config-Fit : (file : List ℕ) → Leaves Fit (read_utm_process_config file)
unfolding read_utm_process_config
read_utm_process_config-Fit file = read_processes-Fit file false [] [] tt (omega arith)
