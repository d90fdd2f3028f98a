-- ===== src/Host/Fifo/Deliver.antt =====
-- What a message goes through in src/HOST/src/host_fifo.c: `tcp_PutFifo`, then `block_FifoGet`; and
-- how the queue is emptied at the end.
use vnf_monitoring.Prelude.{
  ℕ, zero, suc, ◌≡◌, refl, sym, ap, ◌∙◌, true, false, Option, none, some, List, [], ◌∷◌, ◌++◌,
  arith, length, take, ◌≤◌, ◌<◌, ◌⊎◌,
}
use vnf_monitoring.Host.Fifo.{
  TcpHeader, Block, at_first, Fifo, update, block_fifo_put, Wait, block_fifo_get, Malloc,
  tcp_put_fifo, empty_loop, block_fifo_empty,
}
use vnf_monitoring.Host.Fifo.Chain.{
  Placed, Heap, Chain, Away, Distinct, update_self, update_ne, Chain-update,
}
use vnf_monitoring.Host.Fifo.Refine.{IsQueue, block_fifo_put-refines, block_fifo_get-refines}

-- An address where nothing is allocated is away from every chain.
Away-unused :
    (h : Heap) (a : ℕ) (p : Option ℕ) (l : List Placed) → h a ≡ none → Chain h p l → Away a l
Away-unused h a p [] free c = tt
Away-unused h a p ((k, b) ∷ l) free (e, n, at, rest) =
    ((λ q. clash q), Away-unused h a n l free rest)
  where
    clash : a ≡ k → ⊥
    clash q = cc (ap h q)

-- The block that `tcp_PutFifo` makes of a header and the bytes of the message.
abbrev pub block_of : TcpHeader → ℕ → List ℕ → Block
block_of rcvmsg idx bytes = record {
  systemid = rcvmsg.system_id;
  msgtype = rcvmsg.msg_type;
  msgsize = rcvmsg.msg_size;
  alist_idx = idx;
  message = bytes;
}

-- The heap with the new block at `a`, as `block_New` makes it and as `tcp_PutFifo` fills it.
abbrev made : Heap → ℕ → TcpHeader → Heap
made h a rcvmsg = update h a (some (record { block = block_of rcvmsg 0 []; p_next = none }))

abbrev filled : Heap → ℕ → TcpHeader → ℕ → List ℕ → Heap
filled h a rcvmsg idx bytes =
    update (made h a rcvmsg) a
      (some (record { block = block_of rcvmsg idx (take rcvmsg.msg_size bytes); p_next = none }))

abbrev pub both : ℕ → Malloc
both a = record { block_at = some a; message_ok = true }

put-new :
    (s : Fifo) (a : ℕ) (rcvmsg : TcpHeader) (idx : ℕ) (bytes : List ℕ) (n : ℕ) (t : Fifo)
    → rcvmsg.msg_size ≤ length bytes
    → block_fifo_put 1 a (record s { cell = filled s.cell a rcvmsg idx bytes }) ≡ some (n, t)
    → tcp_put_fifo (both a) rcvmsg idx bytes s ≡ some (true, t)
unfolding tcp_put_fifo
put-new s a rcvmsg idx bytes n t long run = ground arith

-- With memory for both parts and a message of at least `MsgSize` bytes, `tcp_PutFifo` returns 0 and
-- puts one block last, which carries the header's fields, the connection and the first `MsgSize` bytes.
pub tcp_put_fifo-refines :
    (s : Fifo) (l : List Placed) (a : ℕ) (rcvmsg : TcpHeader) (idx : ℕ) (bytes : List ℕ)
    → IsQueue s l
    → s.cell a ≡ none
    → rcvmsg.msg_size ≤ length bytes
    → (t : Fifo) × (tcp_put_fifo (both a) rcvmsg idx bytes s ≡ some (true, t))
      × IsQueue t (l ++ ((a, block_of rcvmsg idx (take rcvmsg.msg_size bytes)) ∷ []))
tcp_put_fifo-refines s l a rcvmsg idx bytes q free long =
    let away = Away-unused s.cell a s.p_first l free q.chain in
    let u : Fifo = record s { cell = filled s.cell a rcvmsg idx bytes } in
    let uq : IsQueue u l = record {
      chain =
          Chain-update _ a _ s.p_first l away (Chain-update s.cell a _ s.p_first l away q.chain);
      distinct = q.distinct;
      last = q.last;
      depth = q.depth;
      size = q.size;
    } in
    let (t, run, tq) =
      block_fifo_put-refines u l a (block_of rcvmsg idx (take rcvmsg.msg_size bytes)) 0 uq away
        (update_self (made s.cell a rcvmsg) a _) in
    (
      t,
      put-new s a rcvmsg idx bytes (block_of rcvmsg idx (take rcvmsg.msg_size bytes)).msgsize t long
          run,
      tq,
    )

-- When memory runs out, `tcp_PutFifo` returns -1 and the queue is as before; a message of fewer bytes
-- than `MsgSize` is read beyond its end.
pub tcp_put_fifo-fails :
    (s : Fifo) (env : Malloc) (rcvmsg : TcpHeader) (idx : ℕ) (bytes : List ℕ)
    → ((env.block_at ≡ none) ⊎ (env.message_ok ≡ false)
        → tcp_put_fifo env rcvmsg idx bytes s ≡ some (false, s))
      × ((a : ℕ)
          → env ≡ both a
          → length bytes < rcvmsg.msg_size
          → tcp_put_fifo env rcvmsg idx bytes s ≡ none)
unfolding tcp_put_fifo
tcp_put_fifo-fails s env rcvmsg idx bytes = (λ h. ground arith, λ a e h. ground arith)

-- Of two messages put into an empty queue, two calls of `block_FifoGet` return the blocks in the same order,
-- with the messages unchanged, and leave the queue empty.
get-tcp_put_fifo :
    (s : Fifo) (a b : ℕ) (m n : TcpHeader) (i j : ℕ) (xs ys : List ℕ) (v w : Wait)
    → IsQueue s []
    → s.cell a ≡ none
    → ((t : Fifo) → tcp_put_fifo (both a) m i xs s ≡ some (true, t) → t.cell b ≡ none)
    → m.msg_size ≤ length xs
    → n.msg_size ≤ length ys
    → (t u : Fifo) × (tcp_put_fifo (both a) m i xs s ≡ some (true, t))
      × (tcp_put_fifo (both b) n j ys t ≡ some (true, u))
      × (x y : Fifo) × (block_fifo_get v u ≡ some (some a, x))
      × (x.cell a ≡ some (record { block = block_of m i (take m.msg_size xs); p_next = none }))
      × (block_fifo_get w x ≡ some (some b, y))
      × (y.cell b ≡ some (record { block = block_of n j (take n.msg_size ys); p_next = none }))
      × IsQueue y []
get-tcp_put_fifo s a b m n i j xs ys v w q fa fb la lb =
    let (t, run_t, tq) = tcp_put_fifo-refines s [] a m i xs q fa la in
    let (u, run_u, uq) = tcp_put_fifo-refines t _ b n j ys tq (fb t run_t) lb in
    let (x, run_x, xq, xaway, xa) =
      block_fifo_get-refines v u a (block_of m i (take m.msg_size xs)) _ uq in
    let (y, run_y, yq, yaway, yb) =
      block_fifo_get-refines w x b (block_of n j (take n.msg_size ys)) [] xq in
    (t, u, run_t, run_u, x, y, run_x, xa, run_y, yb, yq)

-- Every block of `l` has been freed.
abbrev pub AllFreed : Heap → List Placed → Type 0
AllFreed h [] = Unit
AllFreed h ((a, b) ∷ l) = (h a ≡ none) × AllFreed h l

empty_loop-step :
    (fuel a : ℕ) (b : Block) (n : Option ℕ) (s : Fifo) (r : Option (Unit {0} × Fifo))
    → s.cell a ≡ some (record { block = b; p_next = n })
    → empty_loop fuel n (record s { cell = update s.cell a none }) ≡ r
    → empty_loop (suc fuel) (some a) s ≡ r
unfolding empty_loop
empty_loop-step fuel a b n s r at run = ground (arith, run)

empty-run :
    (fuel : ℕ) (s : Fifo) (h : Heap)
    → empty_loop fuel s.p_first s ≡ some (tt, record s { cell = h })
    → block_fifo_empty fuel s
      ≡ some (tt, record { cell = h; p_first = none; pp_last = at_first; i_depth = 0; i_size = 0 })
unfolding block_fifo_empty
empty-run fuel s h run = ground (arith, run)

-- Freeing a chain leaves the heap as it was everywhere else.
empty_loop-frees :
    (l : List Placed) (fuel : ℕ) (s : Fifo) (p : Option ℕ)
    → length l ≤ fuel
    → Distinct l
    → Chain s.cell p l
    → (h : Heap) × (empty_loop fuel p s ≡ some (tt, record s { cell = h }))
      × AllFreed h l
      × ((k : ℕ) → Away k l → h k ≡ s.cell k)
unfolding empty_loop
empty_loop-frees [] fuel s p room d c = (s.cell, rw c, tt, λ k away. refl)
empty_loop-frees ((a, b) ∷ l) zero s p room d c = absurd (omega arith)
empty_loop-frees ((a, b) ∷ l) (suc fuel) s p room d (e, n, at, rest) =
    let t : Fifo = record s { cell = update s.cell a none } in
    let (h, run, freed, same) =
      empty_loop-frees l fuel t n (omega arith) d.1 (Chain-update s.cell a none n l d.0 rest) in
    (
      h,
      rw e (empty_loop-step fuel a b n s _ at run),
      (same a d.0 ∙ update_self s.cell a none, freed),
      λ k away. same k away.1 ∙ update_ne s.cell a none k (λ q. away.0 (sym q)),
    )

-- `block_FifoEmpty` frees every block of the queue and nothing else, never a block twice, and leaves an empty queue.
pub block_fifo_empty-refines :
    (s : Fifo) (l : List Placed) (fuel : ℕ)
    → IsQueue s l
    → length l ≤ fuel
    → (t : Fifo) × (block_fifo_empty fuel s ≡ some (tt, t))
      × IsQueue t []
      × AllFreed t.cell l
      × ((k : ℕ) → Away k l → t.cell k ≡ s.cell k)
block_fifo_empty-refines s l fuel q room =
    let (h, run, freed, same) = empty_loop-frees l fuel s s.p_first room q.distinct q.chain in
    (
      record { cell = h; p_first = none; pp_last = at_first; i_depth = 0; i_size = 0 },
      empty-run fuel s h run,
      record { chain = refl; distinct = tt; last = refl; depth = refl; size = refl },
      freed,
      same,
    )
