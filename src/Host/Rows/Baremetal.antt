-- ===== src/Host/Rows/Baremetal.antt =====
-- Which reports are stored for machines that the cloud does not know.
use vnf_monitoring.Prelude.{true, false, List, [], ◌∷◌, ◌==◌}
use vnf_monitoring.Host.State.{VmcStatus, StateInfo, Host}
use vnf_monitoring.Host.Rows.{is_machine}

-- The entries in use in front of the first one that belongs to a machine.
abbrev pub leading : List VmcStatus → List StateInfo → List StateInfo
leading machines [] = []
leading machines (t ∷ l) = elim (t.vm_ip == 0) [
  | true ↦ leading machines l
  | false ↦ elim (is_machine machines t) [ true ↦ [] | false ↦ t ∷ leading machines l ]
]
