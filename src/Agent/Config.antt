-- ===== src/Agent/Config.antt =====
-- The agent's configuration file: `Gettoken`, `Lineparser`, `read_config` and `InitVariable` of src/VMCT/src/vmct_conf.c, over the `Isdigit`
-- and the words of a line that it shares with the host server. `none` is a write behind the end of an array or a read of a variable
-- that was never set.
pub mod Laws
pub mod Total
use vnf_monitoring.Prelude.{
  ℕ, Bool, true, false, ◌%◌, ◌^◌, Option, none, some, List, [], ◌∷◌, ◌==◌, ltb, length, codes, take,
  if◌then◌else◌,
}
use vnf_monitoring.Agent.Report.{vm_type_host}
use vnf_monitoring.Agent.Processes.{read_utm_process_config}
use vnf_monitoring.Host.Rows.{vm_type_utm}
use vnf_monitoring.Host.Config.{
  Scan, read_digits, same_text, interval, before_comment, words_from, have_room,
}

-- What the file sets: fields of `VmctConf` and `tlinkHOST`.
pub record AgentSettings : Type 0 where
  pub host_ip : ℕ
  pub link_addr : List ℕ
  pub host_port : ℕ
  pub link_port : ℕ
  pub vmct_ip : ℕ
  pub vmstate_sendtime : ℕ
  pub vm_type : ℕ
  pub manage_hostip : List ℕ

-- `InitVariable`
abbrev pub initial_settings : AgentSettings
initial_settings = record {
  host_ip = 0;
  link_addr = codes "127.0.0.1";
  host_port = 0;
  link_port = 0;
  vmct_ip = 0;
  vmstate_sendtime = 0;
  vm_type = 0;
  manage_hostip = codes "";
}

abbrev pub vm_type_ips : ℕ
vm_type_ips = 2

unfoldable pub type_of : ℕ → ℕ
type_of d =
    if d == 1
    then vm_type_utm
    else (if d == 2 then vm_type_ips else (if d == 3 then vm_type_host else vm_type_utm))

-- A text goes to an array of `n` bytes.
unfoldable pub copy_to : ℕ → List ℕ → AgentSettings → Option AgentSettings
copy_to n value c = if ltb (length value) n then some c else none

-- A number changes a setting, and a text that is no number changes nothing.
unfoldable pub set_number :
    Scan → List ℕ → (ℕ → AgentSettings → AgentSettings) → AgentSettings → Option AgentSettings
set_number sc value f c = elim (read_digits sc value) [
  | none ↦ some c
  | some none ↦ none
  | some (some d) ↦ some (f d c)
]

-- The section of one name.
unfoldable pub when_named : Bool → Option AgentSettings → AgentSettings → Option AgentSettings
when_named b changed c = elim b [ true ↦ changed | false ↦ some c ]

-- What a section leaves goes to the next one.
infixl 20 ◌>>=◌
abbrev pub ◌>>=◌ : {A B : Type 0} → Option A → (A → Option B) → Option B
none >>= f = none
some a >>= f = f a

-- The agent's `Gettoken`, each section in turn.
unfoldable pub agent_gettoken : Scan → List ℕ → List ℕ → AgentSettings → Option AgentSettings
agent_gettoken sc name value c0 = do
  c1 ←
      when_named (same_text name (codes "HOST_ADDRESS"))
        (copy_to 128 value (record c0 { host_ip = sc.inet_addr value; link_addr = value })) c0
  c2 ←
      when_named (same_text name (codes "HOST_PORT"))
        (set_number sc value (λ d c. record c { host_port = d % 2 ^ 16; link_port = d % 2 ^ 16 })
          c1)
        c1
  c3 ←
      when_named (same_text name (codes "VMCT_ADDRESS"))
        (some (record c2 { vmct_ip = sc.inet_addr value })) c2
  c4 ←
      when_named (same_text name (codes "VM_STATE_SEND_TIME"))
        (set_number sc value (λ d c. record c { vmstate_sendtime = interval d }) c3) c3
  c5 ←
      when_named (same_text name (codes "VMCT_TYPE"))
        (set_number sc value (λ d c. record c { vm_type = type_of d }) c4) c4
  when_named (same_text name (codes "MANAGEMENT_HOST_IP"))
      (copy_to 32 value (record c5 { manage_hostip = value })) c5

-- What follows `sscanf`: three words, of five at most, are a name, a sign and a value.
unfoldable pub agent_words : Scan → List (List ℕ) → AgentSettings → Option AgentSettings
agent_words sc (name ∷ sign ∷ value ∷ []) c = agent_gettoken sc name value c
agent_words sc l c = some c

-- The agent's `Lineparser`
unfoldable pub agent_lineparser : Scan → List ℕ → AgentSettings → Option AgentSettings
agent_lineparser sc buf c =
    let words = take 5 (words_from [] (before_comment buf)) in
    elim (have_room words) [ false ↦ none | true ↦ agent_words sc words c ]

-- The loop of the agent's `read_config` over the lines that `fgets` gives.
unfoldable pub agent_lines : Scan → List (List ℕ) → AgentSettings → Option AgentSettings
agent_lines sc [] c = some c
agent_lines sc (line ∷ l) c = agent_lineparser sc line c >>= agent_lines sc l

-- The agent's `read_config`, where both files are opened: the settings, and the names of the
-- processes.
unfoldable pub agent_read_config :
    Scan → List (List ℕ) → List ℕ → AgentSettings → Option (AgentSettings × List (List ℕ))
agent_read_config sc lines file c = do
  d ← agent_lines sc lines c
  names ← read_utm_process_config file
  some (d, names)
