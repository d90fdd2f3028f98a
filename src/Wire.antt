-- ===== src/Wire.antt =====
-- The messages between agent and host server, the packed structures of inc/bpapp.h, as bytes: the
-- fields one behind the other, integers with the low byte first. What goes over the network is in
-- network order; `ntohl` and its kin are the client's.
pub mod RoundTrip
use vnf_monitoring.Prelude.{
  ℕ, zero, suc, ◌+◌, ◌*◌, ◌/◌, ◌%◌, ◌^◌, List, [], ◌∷◌, ◌++◌, ◌==◌, get_or, take, drop, replicate,
  if◌then◌else◌,
}
use vnf_monitoring.Host.State.{ProcessState}
use vnf_monitoring.Host.Fifo.{TcpHeader}
use vnf_monitoring.Host.Reports.{VmProcStateMsg}

unfoldable pub u16_bytes : ℕ → List ℕ
u16_bytes n = n % 2 ^ 8 ∷ n / 2 ^ 8 % 2 ^ 8 ∷ []

unfoldable pub u32_bytes : ℕ → List ℕ
u32_bytes n = n % 2 ^ 8 ∷ n / 2 ^ 8 % 2 ^ 8 ∷ n / 2 ^ 16 % 2 ^ 8 ∷ n / 2 ^ 24 % 2 ^ 8 ∷ []

pub u16_at : List ℕ → ℕ
u16_at l = get_or l 0 0 + 2 ^ 8 * get_or l 1 0

unfoldable pub u32_at : List ℕ → ℕ
u32_at l = get_or l 0 0 + 2 ^ 8 * get_or l 1 0 + 2 ^ 16 * get_or l 2 0 + 2 ^ 24 * get_or l 3 0

-- A text in a zeroed array of `n` bytes, and the text that stands in an array.
pub text_bytes : ℕ → List ℕ → List ℕ
text_bytes n text = take n (text ++ replicate n 0)

unfoldable pub text_of : List ℕ → List ℕ
text_of [] = []
text_of (c ∷ l) = if c == 0 then [] else c ∷ text_of l

pub text_at : ℕ → List ℕ → List ℕ
text_at n l = text_of (take n l)

-- `common_tcpmsg_t`, 12 bytes.
unfoldable pub header_bytes : TcpHeader → List ℕ
header_bytes h =
    u32_bytes h.tpkt_hdr
    ++ (u32_bytes h.system_id ++ (u16_bytes h.msg_type ++ u16_bytes h.msg_size))

unfoldable pub header_at : List ℕ → TcpHeader
header_at l = record {
  tpkt_hdr = u32_at l;
  system_id = u32_at (drop 4 l);
  msg_type = u16_at (drop 8 l);
  msg_size = u16_at (drop 10 l);
}

-- `process_state_t`, 68 bytes.
pub process_bytes : ProcessState → List ℕ
process_bytes p = text_bytes 64 p.process_name ++ u32_bytes p.process_state

pub process_at : List ℕ → ProcessState
process_at l = record { process_name = text_at 64 l; process_state = u32_at (drop 64 l) }

pub processes_bytes : List ProcessState → List ℕ
processes_bytes [] = []
processes_bytes (p ∷ l) = process_bytes p ++ processes_bytes l

pub processes_at : ℕ → List ℕ → List ProcessState
processes_at zero l = []
processes_at (suc n) l = process_at l ∷ processes_at n (drop 68 l)

-- `vm_proc_state_msg`, 940 bytes.
abbrev pub vm_proc_state_size : ℕ
vm_proc_state_size = 940

pub report_bytes : VmProcStateMsg → List ℕ
report_bytes m =
    u32_bytes m.vm_ipaddress
    ++ (u32_bytes m.vm_type
        ++ (u32_bytes m.pcount
            ++ (text_bytes 64 m.vm_id
                ++ (text_bytes 32 m.vm_name
                    ++ (text_bytes 16 m.manage_ip ++ processes_bytes m.pstate)))))

pub report_at : List ℕ → VmProcStateMsg
report_at l = record {
  vm_ipaddress = u32_at l;
  vm_type = u32_at (drop 4 l);
  pcount = u32_at (drop 4 (drop 4 l));
  vm_id = text_at 64 (drop 4 (drop 4 (drop 4 l)));
  vm_name = text_at 32 (drop 64 (drop 4 (drop 4 (drop 4 l))));
  manage_ip = text_at 16 (drop 32 (drop 64 (drop 4 (drop 4 (drop 4 l)))));
  pstate = processes_at 12 (drop 16 (drop 32 (drop 64 (drop 4 (drop 4 (drop 4 l))))));
}
