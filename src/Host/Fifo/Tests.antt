-- ===== src/Host/Fifo/Tests.antt =====
-- The message queue on concrete heaps.
use vnf_monitoring.Prelude.{
  ℕ, ◌≡◌, refl, sym, ap, Bool, Option, true, none, some, [], ◌∷◌, arith, ℕ_discrete,
}
use vnf_monitoring.Host.Fifo.{
  TcpHeader, Block, Cell, at_first, at_next, Fifo, timed_out, update, block_fifo_put,
  block_fifo_get, tcp_put_fifo, block_fifo_empty, block_new, load, store, put_loop, put_one, link,
}
use vnf_monitoring.Host.Fifo.Chain.{Away}
use vnf_monitoring.Host.Fifo.Refine.{IsQueue, block_fifo_get-refines}
use vnf_monitoring.Host.Fifo.Deliver.{
  both, block_of, AllFreed, tcp_put_fifo-refines, block_fifo_empty-refines,
}

abbrev first_block : Block
first_block = record { systemid = 1; msgtype = 1; msgsize = 2; alist_idx = 0; message = 8 ∷ 9 ∷ [] }

abbrev second_block : Block
second_block = record { systemid = 2; msgtype = 1; msgsize = 1; alist_idx = 3; message = 7 ∷ [] }

-- One block in the queue, and another one allocated.
abbrev one_queued : Fifo
one_queued = record {
  cell =
      update (update (λ k. none) 5 (some (record { block = first_block; p_next = none }))) 7
        (some (record { block = second_block; p_next = none }));
  p_first = some 5;
  pp_last = at_next 5;
  i_depth = 1;
  i_size = 2;
}

one_queued-IsQueue : IsQueue one_queued ((5, first_block) ∷ [])
unfolding ℕ_discrete
one_queued-IsQueue = record {
  chain = (refl, none, refl, refl);
  distinct = (tt, tt);
  last = refl;
  depth = refl;
  size = refl;
}

abbrev empty_queue : Fifo
empty_queue = record {
  cell = λ k. none;
  p_first = none;
  pp_last = at_first;
  i_depth = 0;
  i_size = 0;
}

empty_queue-IsQueue : IsQueue empty_queue []
empty_queue-IsQueue = record { chain = refl; distinct = tt; last = refl; depth = refl; size = refl }

abbrev header : TcpHeader
header = record { tpkt_hdr = 0; system_id = 4; msg_type = 1; msg_size = 2 }

block_fifo_get-refines_example :
    (t : Fifo) × (block_fifo_get (timed_out empty_queue) one_queued ≡ some (some 5, t))
    × IsQueue t []
    × Unit {0}
    × (t.cell 5 ≡ some (record { block = first_block; p_next = none }))
unfolding ℕ_discrete
block_fifo_get-refines_example =
    block_fifo_get-refines (timed_out empty_queue) one_queued 5 first_block [] one_queued-IsQueue

tcp_put_fifo-refines_example :
    (t : Fifo) × (tcp_put_fifo (both 3) header 6 (8 ∷ 9 ∷ 1 ∷ []) one_queued ≡ some (true, t))
    × IsQueue t ((5, first_block) ∷ (3, block_of header 6 (8 ∷ 9 ∷ [])) ∷ [])
unfolding ℕ_discrete
tcp_put_fifo-refines_example =
    tcp_put_fifo-refines one_queued ((5, first_block) ∷ []) 3 header 6 (8 ∷ 9 ∷ 1 ∷ [])
      one_queued-IsQueue refl (omega arith)

block_fifo_empty-refines_example :
    (t : Fifo) × (block_fifo_empty 1 one_queued ≡ some (tt, t))
    × IsQueue t []
    × AllFreed t.cell ((5, first_block) ∷ [])
    × ((k : ℕ) → Away k ((5, first_block) ∷ []) → t.cell k ≡ one_queued.cell k)
unfolding ℕ_discrete
block_fifo_empty-refines_example =
    block_fifo_empty-refines one_queued ((5, first_block) ∷ []) 1 one_queued-IsQueue (omega arith)

abbrev cell_two : Option (Bool × Fifo) → Option Cell
cell_two none = none
cell_two (some (r, u)) = u.cell 2

-- The next address is still unused after the first message.
next_unused :
    (t : Fifo)
    → tcp_put_fifo (both 1) header 6 (8 ∷ 9 ∷ []) empty_queue ≡ some (true, t)
    → t.cell 2 ≡ none
unfolding tcp_put_fifo block_new load store block_fifo_put put_loop put_one link ℕ_discrete
next_unused t e = sym (ap cell_two e)
