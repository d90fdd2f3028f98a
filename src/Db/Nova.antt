-- ===== src/Db/Nova.antt =====
-- `SelectAllVMStatus` of src/DBMB/src/dbmb_main.c. The rows of the query come from the database
-- client library, with the values that `sscanf` and `inet_addr` read from them.
use Prim.Native.String.{String}
use text.Mathlib.Text.{◌==◌ as str_eq}
use vnf_monitoring.Prelude.{
  ℕ, ◌+◌, Option, none, some, List, [], ◌∷◌, leb, length, get_or, set, if◌then◌else◌, Bool, true,
  false, ◌&&◌, ltb,
}
use vnf_monitoring.Host.State.{VmcStatus, zero_status, max_system_num}

-- A `MYSQL_ROW`; `none` for a field that is null. The numbers are those that `sscanf` reads.
pub record Row : Type 0 where
  pub id : Option ℕ
  pub vm_state : Option String
  pub power_state : Option ℕ
  pub display_name : Option (List ℕ)
  pub ip_address : Option ℕ
  pub uuid : Option (List ℕ)
  pub host : Option (List ℕ)

-- A state that is none of the six leaves the field as it was.
pub status_of : String → ℕ → ℕ
status_of s old =
    if str_eq s "active"
    then 1
    else if str_eq s "build"
    then 2
    else if str_eq s "deleted"
    then 3
    else if str_eq s "stopped"
    then 4
    else if str_eq s "paused"
    then 5
    else if str_eq s "suspended"
    then 6
    else old

-- The value of a field that is not null, else what was there.
abbrev field_or {ℓ} : {A : Type ℓ} → Option A → A → A
field_or none old = old
field_or (some a) old = a

abbrev is_there {ℓ} : {A : Type ℓ} → Option A → Bool
is_there none = false
is_there (some a) = true

-- Whether a text fits an array of `n` bytes with its end.
abbrev fits : ℕ → Option (List ℕ) → Bool
fits n none = true
fits n (some t) = ltb (length t) n

-- Whether the first three fields are not null, and the texts fit `vm_name`, `vm_uuid` and `vm_host_name`.
unfoldable pub is_readable : Row → Bool
is_readable r =
    is_there r.id
    && (is_there r.vm_state
        && (is_there r.power_state
            && (fits 32 r.display_name && (fits 128 r.uuid && fits 32 r.host))))

abbrev status_from : Option String → ℕ → ℕ
status_from none old = old
status_from (some s) old = status_of s old

-- The entry that a row leaves, over what was there.
pub entry_of : Row → VmcStatus → VmcStatus
unfolding status_of
entry_of r v = record {
  vm_id = field_or r.id v.vm_id;
  vm_status = status_from r.vm_state v.vm_status;
  vm_power_status = field_or r.power_state v.vm_power_status;
  vm_name = field_or r.display_name v.vm_name;
  vm_ipaddr = field_or r.ip_address v.vm_ipaddr;
  vm_uuid = field_or r.uuid v.vm_uuid;
  vm_host_name = field_or r.host v.vm_host_name;
}

-- The body of the loop; `none` is a read through the null pointer, or a text that is copied over the end
-- of its array.
unfoldable pub read_row : Row → VmcStatus → Option VmcStatus
read_row r v = if is_readable r then some (entry_of r v) else none

-- The loop over the rows, from `count` on.
unfoldable pub fetch_rows : List Row → ℕ → List VmcStatus → Option (ℕ × List VmcStatus)
fetch_rows [] count vm = some (count, vm)
fetch_rows (r ∷ rows) count vm = elim (leb max_system_num count) [
  | true ↦ some (count, vm)
  | false ↦ elim (read_row r (get_or vm count zero_status)) [
    | none ↦ none
    | some v ↦ fetch_rows rows (count + 1) (set vm count v)
  ]
]

-- What `SelectAllVMStatus` comes to: the -1 of a query that fails, the number of machines with the array,
-- or a fault in the body of the loop.
pub data Selection : Type 0 where
  query_failed : Selection
  selected : ℕ → List VmcStatus → Selection
  faulted : Selection

unfoldable pub select_all_vm_status : Option (List Row) → List VmcStatus → Selection
select_all_vm_status none vm = query_failed
select_all_vm_status (some rows) vm = elim (fetch_rows rows 0 vm) [
  | none ↦ faulted
  | some (n, out) ↦ selected n out
]

-- The loop over rows that are all readable.
fetch_plain : List Row → ℕ → List VmcStatus → ℕ × List VmcStatus
fetch_plain [] count vm = (count, vm)
fetch_plain (r ∷ rows) count vm =
    let rest =
      fetch_plain rows (count + 1) (set vm count (entry_of r (get_or vm count zero_status))) in
    if leb max_system_num count then (count, vm) else rest
