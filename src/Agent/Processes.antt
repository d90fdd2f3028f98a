-- ===== src/Agent/Processes.antt =====
-- The list of the processes that the agent watches: `ReadUtmProcessConfig` of
-- src/VMCT/src/vmct_conf.c over the bytes of the file. `none` is a write behind the end of an array,
-- or the loop over a comment that the file's end does not leave.
pub mod Names
pub mod Lines
use vnf_monitoring.Prelude.{
  ℕ, zero, suc, Bool, true, false, not, ◌&&◌, Option, none, some, List, [], ◌∷◌, ◌++◌, ◌==◌, ltb,
  leb, length,
}
use vnf_monitoring.Wire.{text_of}
use vnf_monitoring.Agent.Report.{max_vm_proc_num}

-- The sizes of `subline` and of `process_name`.
abbrev pub subline_size : ℕ
subline_size = 200

abbrev pub process_name_size : ℕ
process_name_size = 64

abbrev pub is_empty : List ℕ → Bool
is_empty [] = true
is_empty (c ∷ l) = false

-- The loop: whether a comment is being skipped, `subline`, and the names so far.
unfoldable pub read_processes : List ℕ → Bool → List ℕ → List (List ℕ) → Option (List (List ℕ))
read_processes [] true subline names = none
read_processes [] false subline names = some names
read_processes (c ∷ file) true subline names = read_processes file (not (c == 10)) subline names
read_processes (c ∷ file) false subline names = elim (c == 35) [
  | true ↦ read_processes file true subline names
  | false ↦ elim ((c == 10) && not (is_empty (text_of subline))) [
    | true ↦ elim (ltb (length (text_of subline)) process_name_size) [
      | false ↦ none
      | true ↦ elim (leb max_vm_proc_num (suc (length names))) [
        | true ↦ some (names ++ (text_of subline ∷ []))
        | false ↦ read_processes file false [] (names ++ (text_of subline ∷ []))
      ]
    ]
    | false ↦ elim (ltb (length subline) subline_size) [
      | false ↦ none
      | true ↦ read_processes file false (subline ++ (c ∷ [])) names
    ]
  ]
]

-- `ReadUtmProcessConfig`, where the file is opened: the names of `vmct_proc`.
unfoldable pub read_utm_process_config : List ℕ → Option (List (List ℕ))
read_utm_process_config file = read_processes file false [] []
