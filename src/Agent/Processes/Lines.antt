-- ===== src/Agent/Processes/Lines.antt =====
-- A file of `ReadUtmProcessConfig` of src/VMCT/src/vmct_conf.c that has a name on each line.
use vnf_monitoring.Prelude.{
  ℕ, suc, ◌+◌, ◌≤◌, ◌<◌, ◌≡◌, ◌≢◌, refl, sym, ap, ◌∙◌, inl, inr, Bool, true, false, not, ◌&&◌,
  Bool-cases, Option, some, List, [], ◌∷◌, ◌++◌, ◌==◌, ltb, leb, length, length-append, All, arith,
  append_assoc, append-nil,
}
use vnf_monitoring.Wire.{text_of}
use vnf_monitoring.Agent.Report.{max_vm_proc_num}
use vnf_monitoring.Agent.Processes.{
  subline_size, process_name_size, is_empty, read_processes, read_utm_process_config,
}

-- A name: not empty, fewer than 64 bytes, none of them 0, a `#` or a line feed.
abbrev pub IsName : List ℕ → Type 0
IsName name =
    (is_empty name ≡ false)
    × (length name < process_name_size)
    × All (λ c. (c ≢ 0) × (c ≢ 35) × (c ≢ 10)) name

-- The file with each name on a line.
abbrev pub file_of : List (List ℕ) → List ℕ
file_of [] = []
file_of (name ∷ names) = name ++ (10 ∷ file_of names)

text_of-name : (name : List ℕ) → All (λ c. (c ≢ 0) × (c ≢ 35) × (c ≢ 10)) name → text_of name ≡ name
unfolding text_of
text_of-name [] a = refl
text_of-name (c ∷ name) a =
    let other : (c == 0) ≡ false = ground (arith, a.0.0) in
    rw (text_of, other, text_of-name name a.1) refl

read_processes-name :
    (name file subline : List ℕ) (names : List (List ℕ))
    → All (λ c. (c ≢ 0) × (c ≢ 35) × (c ≢ 10)) name
    → length subline + length name < subline_size
    → read_processes (name ++ file) false subline names
      ≡ read_processes file false (subline ++ name) names
unfolding read_processes
read_processes-name [] file subline names a room =
    ap (λ l. read_processes file false l names) (sym (append-nil subline))
read_processes-name (c ∷ name) file subline names a room =
    let no_comment : (c == 35) ≡ false = ground (arith, a.0.1) in
    let no_end : ((c == 10) && not (is_empty (text_of subline))) ≡ false = ground (arith, a.0.2) in
    let place : ltb (length subline) subline_size ≡ true = ground (arith, room) in
    rw (read_processes, no_comment, no_end, place)
      (read_processes-name name file (subline ++ (c ∷ [])) names a.1
          (omega (arith, room, length-append subline (c ∷ [])))
        ∙ ap (λ l. read_processes file false l names) (append_assoc subline (c ∷ []) name))

-- The line feed behind a name.
read_processes-end :
    (name file : List ℕ) (names : List (List ℕ)) (r : Bool)
    → IsName name
    → leb max_vm_proc_num (suc (length names)) ≡ r
    → read_processes (10 ∷ file) false name names ≡ (elim r as (λ b. Option (List (List ℕ))) [
      | true ↦ some (names ++ (name ∷ []))
      | false ↦ read_processes file false [] (names ++ (name ∷ []))
    ])
unfolding read_processes
read_processes-end name file names r n e =
    let same = text_of-name name n.2 in
    let short : ltb (length name) process_name_size ≡ true = ground (arith, n.1) in
    rw (read_processes, same, n.0, same, short, e)
      (ap
        (λ z. elim r as (λ b. Option (List (List ℕ))) [
          | true ↦ some (names ++ (z ∷ []))
          | false ↦ read_processes file false [] (names ++ (z ∷ []))
        ])
        same)

read_processes-file_of :
    (names read : List (List ℕ))
    → All IsName names
    → length read + length names ≤ max_vm_proc_num
    → read_processes (file_of names) false [] read ≡ some (read ++ names)
unfolding read_processes
read_processes-file_of [] read a room = ap some (sym (append-nil read))
read_processes-file_of (name ∷ names) read a room =
    read_processes-name name (10 ∷ file_of names) [] read a.0.2 (omega (arith, a.0.1))
    ∙ elim (Bool-cases (leb max_vm_proc_num (suc (length read)))) [
      | inl full ↦
          read_processes-end name (file_of names) read true a.0 full
          ∙ ap (λ l. some (read ++ (name ∷ l))) (no_names names (ground (arith, full, room)))
      | inr more ↦
          read_processes-end name (file_of names) read false a.0 more
          ∙ read_processes-file_of names (read ++ (name ∷ [])) a.1
              (omega (arith, room, length-append read (name ∷ [])))
          ∙ ap some (append_assoc read (name ∷ []) names)
    ]
  where
    no_names : (l : List (List ℕ)) → length l ≡ 0 → [] ≡ l
    no_names [] e = refl
    no_names (x ∷ l) e = absurd (omega (arith, e))

-- Of a file with at most 12 names, one on each line, `ReadUtmProcessConfig` reads exactly these names, in their order.
pub read_utm_process_config-file_of :
    (names : List (List ℕ))
    → All IsName names
    → length names ≤ max_vm_proc_num
    → read_utm_process_config (file_of names) ≡ some names
unfolding read_utm_process_config
read_utm_process_config-file_of names a room =
    read_processes-file_of names [] a (omega (arith, room))
