-- ===== src/Agent/Delivery.antt =====
-- The agent and the host server together: a report from `SendProcStateReq` of src/VMCT/src/vmct_task.c
-- to the table `stateinfo` of the server.
use vnf_monitoring.Prelude.{
  subst, ℕ, ◌≤◌, ◌≡◌, ap, sym, ◌∙◌, Bool, none, some, List, [], ◌∷◌, ◌++◌, map, take, drop, length,
  arith,
}
use vnf_monitoring.Host.Fifo.{Wait}
use vnf_monitoring.Host.Fifo.Refine.{IsQueue}
use vnf_monitoring.Host.Fifo.Deliver.{both}
use vnf_monitoring.Host.Reports.{store_report}
use vnf_monitoring.Host.Reports.Lookup.{IsStored, store_report-IsStored}
use vnf_monitoring.Host.Sock.{Sock, RecvAnswer, chunk, with_tpkt, Poll, SendAnswer}
use vnf_monitoring.Host.Sock.Send.{ArePieces, joined}
use vnf_monitoring.Host.Server.{
  Orders, AreOrders, Server, tcp_msg_hton, rcv_connection, send_vm_proc_state_rsp, fifo_turn,
}
use vnf_monitoring.Host.Server.Delivery.{block_for, rcv_connection-puts}
use vnf_monitoring.Host.Server.Processing.{fifo_turn-stores}
use vnf_monitoring.Wire.{header_bytes, report_bytes}
use vnf_monitoring.Wire.RoundTrip.{length-report_bytes}
use vnf_monitoring.Agent.Report.{AgentConf, own_report, to_network, req_header, proc_state_req}
use vnf_monitoring.Agent.Report.Encode.{IsConf, req-bytes, req-IsHeader, report-back, sent-IsReport}

-- The agent's message, under its TPKT header and in whatever non-empty pieces, reaches the server. Where
-- its buffer has room for it, there is memory, the queue is empty and the call that sends the response
-- comes to an end, a turn of `tcp_rcvTask` and one of `fifo_getTask` leave the queue empty and the
-- report in `stateinfo`: if the machine's address has an entry there, or another entry is free, the
-- address has an entry with the agent's processes, names and numbers, the latter cut to 16 bits; if
-- neither, `stateinfo` stays the same; and the entries of all other addresses but 0 stay in any case.
pub store_report-proc_state_req :
    (o : Orders) (up : List ℕ → Bool) (hex addr_text name_of : ℕ → List ℕ) (conf : AgentConf)
    (i a : ℕ) (msg b c : List ℕ) (k l : List (List ℕ)) (rest : List RecvAnswer) (w : Wait)
    (polls : List Poll) (answers : List SendAnswer) (s : Server)
    → AreOrders o
    → IsConf hex addr_text conf
    → proc_state_req o up hex addr_text conf ≡ some msg
    → 952 ≤ length s.buf
    → ArePieces (b ∷ k)
    → ArePieces (c ∷ l)
    → joined (b ∷ k) ≡ take 4 (with_tpkt o.htons msg)
    → joined (c ∷ l) ≡ drop 4 msg
    → IsQueue s.fifo []
    → s.fifo.cell a ≡ none
    → ((t : Server)
        → rcv_connection o name_of (both a) i (map chunk (b ∷ k) ++ (map chunk (c ∷ l) ++ rest)) s
          ≡ some t
        → (u : Sock) × (send_vm_proc_state_rsp o i 1 polls answers t.sock ≡ some u))
    → (t u : Server) × (rcv_connection o name_of
          (both a)
          i
          (map chunk (b ∷ k) ++ (map chunk (c ∷ l) ++ rest))
          s
        ≡ some t)
      × (fifo_turn o w polls answers t ≡ some u)
      × IsQueue u.fifo []
      × IsStored (own_report up hex addr_text conf) s.sock.host.stateinfo u.sock.host.stateinfo
store_report-proc_state_req o up hex addr_text name_of conf i a msg b c k l rest w polls answers s
      orders v made room pb pc eb ec queue free responds =
    let h = tcp_msg_hton o req_header in
    let m = to_network o (own_report up hex addr_text conf) in
    let same : msg ≡ header_bytes h ++ report_bytes m =
      cc (made, req-bytes o orders up hex addr_text conf v) in
    let size = length-report_bytes m (sent-IsReport o orders up hex addr_text conf v).twelve in
    let (t, run, tq, before) =
      rcv_connection-puts o name_of i a h (report_bytes m) b c k l rest s [] orders
        (req-IsHeader o orders up hex addr_text) (orders.ntohs-htons 940 (omega arith) ∙ sym size)
        (omega (arith, size)) (omega (arith, size, room)) pb pc
        (eb ∙ ap (λ z. take 4 (with_tpkt o.htons z)) same) (ec ∙ ap (drop 4) same) queue free in
    let (sent, response) = responds t run in
    let one : o.ntohl (o.htonl 1) ≡ 1 = orders.ntohl-htonl 1 (omega arith) in
    let (u, turn, uq, freed, stored) =
      fifo_turn-stores o w polls answers t a (block_for o i h (report_bytes m)) [] sent tq
        (orders.ntohs-htons 1 (omega arith)) (omega (arith, size))
        (ap (λ z. send_vm_proc_state_rsp o i z polls answers t.sock) one ∙ response) in
    (
      t,
      u,
      run,
      turn,
      uq,
      subst (λ l. IsStored (own_report up hex addr_text conf) s.sock.host.stateinfo l)
          (sym (
            stored
            ∙ ap (λ z. (store_report z t.sock.host.stateinfo).0)
                (report-back o orders up hex addr_text conf v)
            ∙ ap (λ z. (store_report (own_report up hex addr_text conf) z).0) before))
          (store_report-IsStored (own_report up hex addr_text conf) s.sock.host.stateinfo),
    )
