-- ===== src/Host/Server/Processing.antt =====
-- A block on its way from the queue to `stateinfo`: `FifoGet_Event` and a turn of `fifo_getTask`.
use vnf_monitoring.Prelude.{
  ℕ, ◌≡◌, refl, ap, ◌<◌, ◌≤◌, inl, inr, true, false, none, some, Option-cases, List, ◌∷◌, ◌==◌, ltb,
  length, arith,
}
use vnf_monitoring.Host.Fifo.{
  Block, Cell, Fifo, Wait, block_fifo_get, load, store, update, block_release,
}
use vnf_monitoring.Host.Fifo.Chain.{Placed, Chain-update, update_self}
use vnf_monitoring.Host.Fifo.Refine.{IsQueue, block_fifo_get-refines}
use vnf_monitoring.Host.Reports.{
  to_host, store_report, set_vm_process_state_info, vm_proc_state_req,
}
use vnf_monitoring.Host.Sock.{Sock, Poll, SendAnswer}
use vnf_monitoring.Host.Server.{Orders, Server, send_vm_proc_state_rsp, handle_block, fifo_turn}
use vnf_monitoring.Wire.{report_at, vm_proc_state_size}
use vnf_monitoring.Host.Server.Respond.{send_vm_proc_state_rsp-stateinfo}

-- A report of at least 940 bytes whose response is sent, or is not, is stored as the report that the
-- bytes are; every other message, and a failed send, changes no report.
pub handle_block-stores :
    (o : Orders) (b : Block) (polls : List Poll) (answers : List SendAnswer) (s t : Sock)
    → b.msgtype ≡ vm_proc_state_req
    → vm_proc_state_size ≤ length b.message
    → send_vm_proc_state_rsp o b.alist_idx b.systemid polls answers s ≡ some t
    → (u : Sock) × (handle_block o b polls answers s ≡ some u)
      × (u.host.stateinfo
          ≡ (store_report (to_host o.ntohl (report_at b.message)) s.host.stateinfo).0)
unfolding handle_block set_vm_process_state_info
handle_block-stores o b polls answers s t req long run =
    let test : (b.msgtype == vm_proc_state_req) ≡ true = ground (arith, req) in
    let enough : ltb (length b.message) vm_proc_state_size ≡ false = ground (arith, long) in
    (
      record t { host = (set_vm_process_state_info o.ntohl (report_at b.message) t.host).0 },
      rw (handle_block, test, run, enough) refl,
      ap (λ l. (store_report (to_host o.ntohl (report_at b.message)) l).0)
          (rw run at (send_vm_proc_state_rsp-stateinfo o b.alist_idx b.systemid polls answers s)),
    )

-- A report of fewer bytes than the structure is read beyond its end: its length is never tested.
handle_block-short :
    (o : Orders) (b : Block) (polls : List Poll) (answers : List SendAnswer) (s : Sock)
    → b.msgtype ≡ vm_proc_state_req
    → length b.message < vm_proc_state_size
    → handle_block o b polls answers s ≡ none
unfolding handle_block
handle_block-short o b polls answers s req short =
    let test : (b.msgtype == vm_proc_state_req) ≡ true = ground (arith, req) in
    let less : ltb (length b.message) vm_proc_state_size ≡ true = ground (arith, short) in
    elim (Option-cases (send_vm_proc_state_rsp o b.alist_idx b.systemid polls answers s)) [
      | inl e ↦ rw (handle_block, test, e) refl
      | inr (t, e) ↦ rw (handle_block, test, e, less) refl
    ]

released : ℕ → Fifo → Fifo
released a f = record f { cell = update f.cell a none }

block_release-run :
    (f : Fifo) (a : ℕ) (c : Cell) → f.cell a ≡ some c → block_release a f ≡ some (tt, released a f)
unfolding block_release store released
block_release-run f a c at = rw (block_release, store, at) refl

fifo-run :
    (o : Orders) (w : Wait) (polls : List Poll) (answers : List SendAnswer) (s : Server) (a : ℕ)
    (c : Cell) (f : Fifo) (u : Sock)
    → block_fifo_get w s.fifo ≡ some (some a, f)
    → f.cell a ≡ some c
    → handle_block o c.block polls answers s.sock ≡ some u
    → fifo_turn o w polls answers s ≡ some (record s { sock = u; fifo = released a f })
unfolding fifo_turn load
fifo-run o w polls answers s a c f u get at run =
    rw (fifo_turn, get, load, at, run, block_release-run f a c at) refl

-- Where the oldest block of the queue is a report of at least 940 bytes and the call that sends the
-- response comes to an end, a turn of `fifo_getTask` stores the report, takes the block from the
-- queue and frees it.
pub fifo_turn-stores :
    (o : Orders) (w : Wait) (polls : List Poll) (answers : List SendAnswer) (s : Server) (a : ℕ)
    (b : Block) (l : List Placed) (t : Sock)
    → IsQueue s.fifo ((a, b) ∷ l)
    → b.msgtype ≡ vm_proc_state_req
    → vm_proc_state_size ≤ length b.message
    → send_vm_proc_state_rsp o b.alist_idx b.systemid polls answers s.sock ≡ some t
    → (u : Server) × (fifo_turn o w polls answers s ≡ some u)
      × IsQueue u.fifo l
      × (u.fifo.cell a ≡ none)
      × (u.sock.host.stateinfo
          ≡ (store_report (to_host o.ntohl (report_at b.message)) s.sock.host.stateinfo).0)
unfolding released
fifo_turn-stores o w polls answers s a b l t q req long responds =
    let (f, get, fq, away, at) = block_fifo_get-refines w s.fifo a b l q in
    let (u, run, stored) = handle_block-stores o b polls answers s.sock t req long responds in
    (
      record s { sock = u; fifo = released a f },
      fifo-run o w polls answers s a (record { block = b; p_next = none }) f u get at run,
      record {
        chain = Chain-update f.cell a none f.p_first l away fq.chain;
        distinct = fq.distinct;
        last = fq.last;
        depth = fq.depth;
        size = fq.size;
      },
      update_self f.cell a none,
      stored,
    )
