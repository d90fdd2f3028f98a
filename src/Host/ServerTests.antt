-- ===== src/Host/ServerTests.antt =====
-- The host server's turns and its configuration on concrete values.
use vnf_monitoring.Prelude.{
  ◌%◌, ◌^◌, Option, ℕ, ◌≡◌, refl, ◌⊎◌, inl, true, false, none, some, List, [], ◌∷◌, ◌++◌, drop,
  length-replicate, replicate, Leaves, arith, codes,
}
use vnf_monitoring.Prelude.Int.{pos}
use vnf_monitoring.Host.State.{Host, cleared_state, zero_system}
use vnf_monitoring.Host.Fifo.{TcpHeader, Fifo, at_first}
use vnf_monitoring.Host.Fifo.Refine.{IsQueue}
use vnf_monitoring.Host.Fifo.Deliver.{both}
use vnf_monitoring.Host.Sock.{tcp_recv, recv_loop, datasize, Sock, chunk, unused_accept}
use vnf_monitoring.Host.Server.{Orders, Server, Ready, buf_size, rcv_connections}
use vnf_monitoring.Host.Server.Bounds.{IsGood, Stalls, rcv_connections-safe}
use vnf_monitoring.Host.Tasks.{check_vm_status_step, runs}
use vnf_monitoring.Host.Tasks.Rate.{readings}
use vnf_monitoring.Host.Tasks.Configured.{runs-read_config}
use vnf_monitoring.Host.Config.{
  Scan, Settings, default_settings, read_config, lineparser, store_words, parse_words, gettoken,
  run_sections, sections, number_to, read_digits, interval, before_comment, words_from,
}
use vnf_monitoring.Host.Config.Laws.{IsSane}
use vnf_monitoring.Host.Config.Total.{AreReadable, read_config_total}
use vnf_monitoring.Host.Config.Lines.{setting_line, lineparser-setting_line}
use vnf_monitoring.Wire.{header_bytes, u32_bytes, u16_bytes}

abbrev same_order : Orders
same_order = record { ntohl = λ n. n; ntohs = λ n. n; htonl = λ n. n; htons = λ n. n }

abbrev no_text : ℕ → List ℕ
no_text n = []

abbrev host : Host
host = record {
  conf = record {
    bp_mode = 2;
    vm_count = 1;
    vmc_mode = 2;
    tcp_mode = 2;
    baremetal_mode = 1;
    cloud_mode = 0;
    vmc_system = zero_system ∷ [];
    vmc_status = [];
  };
  base_pstate = [];
  stateinfo = cleared_state [] ∷ [];
  check_tcpstatus_min = 3;
}

abbrev sock : Sock
sock = record {
  is_server = true;
  alist = record unused_accept { accept_fd = pos 5; port = 80 } ∷ [];
  allset = pos 5 ∷ [];
  closed = [];
  host = host;
}

abbrev server : Fifo → Server
server f = record { sock = sock; fifo = f; buf = replicate 20 0 }

abbrev empty_fifo : Fifo
empty_fifo = record {
  cell = λ a. none;
  p_first = none;
  pp_last = at_first;
  i_depth = 0;
  i_size = 0;
}

empty_fifo-IsQueue : IsQueue empty_fifo []
empty_fifo-IsQueue = record { chain = refl; distinct = tt; last = refl; depth = refl; size = refl }

-- Two bytes of the type 9.
abbrev header : TcpHeader
header = record { tpkt_hdr = 0; system_id = 1; msg_type = 9; msg_size = 2 }

abbrev message : List ℕ
message = header_bytes header ++ (7 ∷ 8 ∷ [])

-- 16-bit numbers of a host with the network's order.
abbrev narrow_order : Orders
narrow_order = record same_order { ntohs = λ n. n % 2 ^ 16 }

-- The first connection is not open, on the second one the message arrives in two pieces.
abbrev arrivals : List Ready
arrivals =
    record { index = 1; malloc = both 4; answers = [] }
    ∷ record {
      index = 0;
      malloc = both 3;
      answers = chunk (4 ∷ 0 ∷ 0 ∷ 14 ∷ []) ∷ chunk (drop 4 message) ∷ [];
    }
    ∷ []

abbrev large_server : Server
large_server = record { sock = sock; fifo = empty_fifo; buf = replicate buf_size 0 }

no_more : (o : Option Server) → Leaves (λ t. Unit {0}) o
no_more none = tt
no_more (some t) = tt

rcv_connections-safe_example :
    ((t : Server) × (rcv_connections narrow_order no_text arrivals large_server ≡ some t)
      × IsGood t)
    ⊎ Stalls narrow_order no_text arrivals large_server
unfolding tcp_recv recv_loop datasize header_bytes u32_bytes u16_bytes
rcv_connections-safe_example =
    rcv_connections-safe narrow_order no_text arrivals large_server (λ n. omega arith)
      ((((omega arith, tt), (omega arith, tt)), refl), no_more _)
      (length-replicate {A = ℕ} buf_size 0, ([], empty_fifo-IsQueue))

-- A reader of numbers that takes every number for 7.
abbrev scan : Scan
scan = record { scan_u = λ t. some 7; scan_x = λ t. none; inet_addr = λ t. 1 }

default_settings-IsSane : IsSane default_settings
unfolding codes
default_settings-IsSane = record {
  due = inl refl;
  baremetal = omega arith;
  cloud = omega arith;
  address = omega arith;
  nova = (omega arith, (omega arith, (omega arith, (omega arith, tt))));
  orche = (omega arith, (omega arith, (omega arith, (omega arith, (omega arith, tt)))));
}

-- A line that sets the interval to 7, which becomes 10.
abbrev lines : List (List ℕ)
lines = setting_line (codes "CHECK_VMC_STATUS_SEC") (55 ∷ []) ∷ []

reads_ten :
    read_config scan lines default_settings
    ≡ some (record default_settings { check_vmcstatus_sec = 10 })
unfolding read_config lineparser store_words parse_words gettoken run_sections sections number_to
    read_digits interval before_comment words_from codes
reads_ten = refl

lines-AreReadable : AreReadable scan lines
unfolding read_digits before_comment words_from codes
lines-AreReadable = (
  (
    (omega arith, λ e. ground (arith, e)),
    ((omega arith, λ e. ground (arith, e)), ((omega arith, λ e. ground (arith, e)), tt)),
  ),
  tt,
)

read_config_total_example :
    (d : Settings) × (read_config scan lines default_settings ≡ some d) × IsSane d
read_config_total_example =
    read_config_total scan lines default_settings lines-AreReadable default_settings-IsSane

lineparser-setting_line_example :
    lineparser scan (65 ∷ 32 ∷ 61 ∷ 32 ∷ 55 ∷ 10 ∷ []) default_settings
    ≡ gettoken scan (65 ∷ []) (55 ∷ []) default_settings
lineparser-setting_line_example =
    lineparser-setting_line scan (65 ∷ []) (55 ∷ []) default_settings
      (((refl, refl), tt), omega arith) (((refl, refl), tt), omega arith)

runs-read_config_example :
    runs (check_vm_status_step 10) false (readings ((9, 2) ∷ (10, 3) ∷ (11, 0) ∷ [])) ≡ 1
runs-read_config_example =
    runs-read_config scan lines default_settings
      (record default_settings { check_vmcstatus_sec = 10 }) 8 ((9, 2) ∷ (10, 3) ∷ (11, 0) ∷ [])
      default_settings-IsSane reads_ten (refl, (refl, (refl, tt)))
