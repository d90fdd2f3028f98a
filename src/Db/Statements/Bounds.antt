-- ===== src/Db/Statements/Bounds.antt =====
-- The statements fit into the `Query` buffers of MAX_QUERY_LENGTH bytes.
use vnf_monitoring.Prelude.{
  length-digits, ℕ, zero, suc, ◌+◌, ◌*◌, ◌%◌, ◌≤◌, ◌<◌, ◌≡◌, List, [], ◌∷◌, ◌++◌, if◌then◌else◌,
  codes, length, length-append, arith, All,
}
use vnf_monitoring.Host.State.{ProcessState}
use vnf_monitoring.Host.Rows.{VmProcess}
use vnf_monitoring.Db.Statements.{
  Arg, text, short, print_arg, print_next, rest, Mode, plain, percent, half, next_mode,
  ends_directive, print_char, sprintf_from, sprintf, insert_vm_state_info, update_vm_state_info,
  select_count_vm_state_info, select_process_count_vm_state_info, insert_orche_vm_state_info,
  pstate_args, insert_args, key_args, update_args, orche_args, insert_text, update_text, count_text,
  process_count_text, orche_insert_text,
}

-- The room that the arguments take.
abbrev arg_size : Arg → ℕ
arg_size (text s) = length s
arg_size (short n) = 5

abbrev args_size : List Arg → ℕ
args_size [] = 0
args_size (a ∷ l) = arg_size a + args_size l

length-print_next : (l : List Arg) → length (print_next l) + args_size (rest l) ≤ args_size l
unfolding print_next print_arg
length-print_next [] = omega arith
length-print_next (text s ∷ l) = omega arith
length-print_next (short n ∷ l) = omega (arith, length-digits 5 (n % 65536))

length-print_char :
    (m : Mode) (c : ℕ) (l : List Arg)
    → length (print_char m c l) + args_size (if ends_directive m c then rest l else l)
      ≤ 1 + args_size l
unfolding print_char
length-print_char plain c l = ground arith
length-print_char percent c l = ground (arith, length-print_next l)
length-print_char half c l = ground (arith, length-print_next l)

length-sprintf_from :
    (m : Mode) (f : List ℕ) (l : List Arg) → length (sprintf_from m f l) ≤ length f + args_size l
unfolding sprintf_from
length-sprintf_from m [] l = omega arith
length-sprintf_from m (c ∷ f) l =
    let m' = next_mode m c in
    let l' = if ends_directive m c then rest l else l in
    omega (
      arith,
      length-print_char m c l,
      length-append (print_char m c l) (sprintf_from m' f l'),
      length-sprintf_from m' f l',
    )

-- A row whose texts fit into the arrays of `vm_process_t`, with the byte that ends them.
pub record Fits (v : VmProcess) : Type 0 where
  pub time_stamp : length v.time_stamp < 32
  pub vm_id : length v.vm_id < 64
  pub vm_name : length v.vm_name < 128
  pub host_id : length v.host_id < 128
  pub host_ip : length v.host_ip < 16
  pub names : All (λ p. length (ProcessState.process_name p) < 64) v.pstate

args_size-append : (k l : List Arg) → args_size (k ++ l) ≡ args_size k + args_size l
args_size-append [] l = omega arith
args_size-append (a ∷ k) l = omega (arith, args_size-append k l)

args_size-pstate_args :
    (n : ℕ) (l : List ProcessState)
    → All (λ p. length (ProcessState.process_name p) < 64) l
    → args_size (pstate_args n l) ≤ n * 68
unfolding pstate_args
args_size-pstate_args zero l h = omega arith
args_size-pstate_args (suc n) [] h = omega (arith, args_size-pstate_args n [] tt)
args_size-pstate_args (suc n) (p ∷ l) h = omega (arith, args_size-pstate_args n l h.1)

length_formats :
    (length insert_vm_state_info ≤ 800)
    × (length update_vm_state_info ≤ 900)
    × (length insert_orche_vm_state_info ≤ 300)
    × (length select_count_vm_state_info ≤ 100)
    × (length select_process_count_vm_state_info ≤ 100)
unfolding insert_vm_state_info update_vm_state_info insert_orche_vm_state_info
    select_count_vm_state_info select_process_count_vm_state_info
length_formats = omega arith

insert_size : (v : VmProcess) → Fits v → args_size (insert_args v) ≤ 1250
unfolding insert_args codes
insert_size v h = omega (
  arith,
  h,
  args_size-pstate_args 12 v.pstate h.names,
  args_size-append (pstate_args 12 v.pstate)
      (short v.bp_state ∷ text v.host_ip ∷ short v.vm_process_count ∷ []),
)

update_size : (v : VmProcess) → Fits v → args_size (update_args v) ≤ 1350
unfolding update_args
update_size v h = omega (
  arith,
  h,
  insert_size v h,
  args_size-append (insert_args v) (text v.time_stamp ∷ text v.vm_id ∷ []),
)

orche_size : (v : VmProcess) → Fits v → args_size (orche_args v) ≤ 1250
unfolding orche_args codes
orche_size v h = omega (
  arith,
  h,
  args_size-pstate_args 12 v.pstate h.names,
  args_size-append (pstate_args 12 v.pstate) (short v.bp_state ∷ []),
)

key_size : (v : VmProcess) → Fits v → args_size (key_args v) ≤ 120
unfolding key_args codes
key_size v h = omega (arith, h)

sprintf_fits :
    (f : List ℕ) (l : List Arg) {a b : ℕ}
    → length f ≤ a
    → args_size l ≤ b
    → a + b < 4096
    → length (sprintf f l) < 4096
unfolding sprintf
sprintf_fits f l hf hl room = omega (arith, length-sprintf_from plain f l)

-- For a row whose texts fit into its own arrays, every statement and the byte that ends it fit into
-- the 4096 bytes of `Query`, whatever its numbers are.
pub statements-fit :
    (v : VmProcess)
    → Fits v
    → (length (insert_text v) < 4096)
      × (length (update_text v) < 4096)
      × (length (count_text v) < 4096)
      × (length (process_count_text v) < 4096)
      × (length (orche_insert_text v) < 4096)
unfolding insert_text update_text count_text process_count_text orche_insert_text
statements-fit v h =
    let (i, u, o, c, p) = length_formats in
    (
      sprintf_fits _ _ i (insert_size v h) (omega arith),
      sprintf_fits _ _ u (update_size v h) (omega arith),
      sprintf_fits _ _ c (key_size v h) (omega arith),
      sprintf_fits _ _ p (key_size v h) (omega arith),
      sprintf_fits _ _ o (orche_size v h) (omega arith),
    )
