-- ===== src/Host/Fifo/Refine.antt =====
-- The linked queue of src/HOST/src/host_fifo.c against a first-in first-out list of blocks.
use vnf_monitoring.Prelude.{
  ℕ, suc, ◌+◌, ◌-◌, ◌≡◌, ◌≢◌, refl, sym, ap, ◌∙◌, Option, none, some, List, [], ◌∷◌, ◌++◌, arith,
  length,
}
use vnf_monitoring.Host.Fifo.{
  Block, Cell, at_next, Fifo, update, block_fifo_new, block_fifo_put, reset_last, Wait, timed_out,
  woken, block_fifo_get,
}
use vnf_monitoring.Host.Fifo.Chain.{
  Placed, Heap, Chain, Away, Distinct, last_at, last_of, total_size, update_self, Chain-update,
  Away-last_at, last_cell, relinked, Chain-link, Distinct-append, last_of-append, total_size-append,
  length-append_one,
}

-- The queue holds the blocks `l`, the oldest first, and its counters agree with them.
pub record IsQueue (s : Fifo) (l : List Placed) : Type 0 where
  pub chain : Chain s.cell s.p_first l
  pub distinct : Distinct l
  pub last : s.pp_last ≡ last_of l
  pub depth : s.i_depth ≡ length l
  pub size : s.i_size ≡ total_size l

-- A new queue is empty.
pub block_fifo_new-IsQueue : (h : Heap) → IsQueue (block_fifo_new h) []
unfolding block_fifo_new
block_fifo_new-IsQueue h = record {
  chain = refl;
  distinct = tt;
  last = refl;
  depth = refl;
  size = refl;
}

put-run :
    (s : Fifo) (e a : ℕ) (c : Cell) (b : Block) (fuel : ℕ)
    → s.pp_last ≡ at_next e
    → s.cell e ≡ some c
    → e ≢ a
    → s.cell a ≡ some (record { block = b; p_next = none })
    → block_fifo_put (suc fuel) a s
      ≡ some (
        b.msgsize,
        record s {
          cell = update s.cell e (some (relinked c a));
          pp_last = at_next a;
          i_depth = s.i_depth + 1;
          i_size = s.i_size + b.msgsize;
        },
      )
unfolding block_fifo_put
put-run s e a c b fuel last lc ne fresh = ground arith

-- `block_FifoPut` of one block that is not in the queue puts it last, and returns its size.
pub block_fifo_put-refines :
    (s : Fifo) (l : List Placed) (a : ℕ) (b : Block) (fuel : ℕ)
    → IsQueue s l
    → Away a l
    → s.cell a ≡ some (record { block = b; p_next = none })
    → (t : Fifo) × (block_fifo_put (suc fuel) a s ≡ some (b.msgsize, t))
      × IsQueue t (l ++ ((a, b) ∷ []))
block_fifo_put-refines s [] a b fuel q away fresh = (
  record s {
    p_first = some a;
    pp_last = at_next a;
    i_depth = s.i_depth + 1;
    i_size = s.i_size + b.msgsize;
  },
  unfold block_fifo_put in ground (arith, q.last),
  record {
    chain = (refl, none, fresh, refl);
    distinct = (tt, tt);
    last = refl;
    depth = omega (arith, q.depth);
    size = omega (arith, q.size);
  },
)
block_fifo_put-refines s ((k, x) ∷ l) a b fuel q away fresh =
    let (c, lc) = last_cell s.cell k x l s.p_first q.chain in
    let h = update s.cell (last_at k l) (some (relinked c a)) in
    (
      record s {
        cell = h;
        pp_last = at_next a;
        i_depth = s.i_depth + 1;
        i_size = s.i_size + b.msgsize;
      },
      put-run s (last_at k l) a c b fuel q.last lc (λ e. Away-last_at a k x l away (sym e)) fresh,
      record {
        chain = Chain-link s.cell a b c k x l s.p_first fresh lc q.distinct away q.chain;
        distinct = Distinct-append ((k, x) ∷ l) a b q.distinct away;
        last = sym (last_of-append ((k, x) ∷ l) a b);
        depth = omega (arith, q.depth, length-append_one ((k, x) ∷ l) (a, b));
        size = omega (arith, q.size, total_size-append ((k, x) ∷ l) a b);
      },
    )

get-run :
    (w : Wait) (s : Fifo) (a : ℕ) (b : Block) (n : Option ℕ)
    → s.p_first ≡ some a
    → s.cell a ≡ some (record { block = b; p_next = n })
    → block_fifo_get w s
      ≡ some (
        some a,
        record s {
          cell = update s.cell a (some (record { block = b; p_next = none }));
          p_first = n;
          pp_last = reset_last n s.pp_last;
          i_depth = s.i_depth - 1;
          i_size = s.i_size - b.msgsize;
        },
      )
unfolding block_fifo_get
get-run w s a b n first at = ground arith

reset_last-Chain :
    (h : Heap) (l : List Placed) (a : ℕ) (n : Option ℕ)
    → Chain h n l
    → reset_last n (at_next (last_at a l)) ≡ last_of l
unfolding reset_last
reset_last-Chain h [] a n e = rw e
reset_last-Chain h ((k, x) ∷ l) a n e = rw e.0

-- `block_FifoGet` on a queue that is not empty takes the oldest block, whatever a wait would bring. The block stays
-- on the heap, cut off from the queue.
pub block_fifo_get-refines :
    (w : Wait) (s : Fifo) (a : ℕ) (b : Block) (l : List Placed)
    → IsQueue s ((a, b) ∷ l)
    → (t : Fifo) × (block_fifo_get w s ≡ some (some a, t))
      × IsQueue t l
      × Away a l
      × (t.cell a ≡ some (record { block = b; p_next = none }))
block_fifo_get-refines w s a b l q =
    let (first, n, at, rest) = q.chain in
    let h = update s.cell a (some (record { block = b; p_next = none })) in
    (
      record s {
        cell = h;
        p_first = n;
        pp_last = reset_last n s.pp_last;
        i_depth = s.i_depth - 1;
        i_size = s.i_size - b.msgsize;
      },
      get-run w s a b n first at,
      record {
        chain = Chain-update s.cell a _ n l q.distinct.0 rest;
        distinct = q.distinct.1;
        last = ap (reset_last n) q.last ∙ reset_last-Chain s.cell l a n rest;
        depth = omega (arith, q.depth);
        size = omega (arith, q.size);
      },
      q.distinct.0,
      update_self s.cell a _,
    )

-- On an empty queue `block_FifoGet` returns null when the wait fails, and the block that another thread
-- has put when it does not. A wake-up with the queue still empty dereferences a null pointer: the test is an `if`, not a loop.
pub block_fifo_get-empty :
    (s : Fifo)
    → IsQueue s []
    → ((t : Fifo) → block_fifo_get (timed_out t) s ≡ some (none, t))
      × ((t : Fifo) → IsQueue t [] → block_fifo_get (woken t) s ≡ none)
      × ((t : Fifo) (a : ℕ) (b : Block) (l : List Placed)
          → IsQueue t ((a, b) ∷ l)
          → block_fifo_get (woken t) s ≡ block_fifo_get (woken t) t)
block_fifo_get-empty s q = (
  λ t. unfold block_fifo_get in ground (arith, q.chain),
  λ t p. unfold block_fifo_get in ground (arith, q.chain, p.chain),
  λ t a b l p. unfold block_fifo_get in ground (arith, q.chain, p.chain.0),
)
