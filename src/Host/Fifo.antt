-- ===== src/Host/Fifo.antt =====
-- The message queue between the receiving and the processing thread, src/HOST/src/host_fifo.c.
-- Blocks live on an explicit heap: `cell a` is `none` where nothing is allocated, and the access
-- of such an address is a fault, the outer `none` of `M`. A function runs under the queue's mutex
-- from its first line to its last, but for the wait of `block_FifoGet` and `block_FifoShow`,
-- which takes the state that the other threads leave as its argument. `p_prev`, which is never
-- read, is left out; the counters are `int`s that stay far below 2 ^ 31.
pub mod Chain
pub mod Refine
pub mod Deliver
mod Tests
use vnf_monitoring.Prelude.{
  ℕ, zero, suc, ◌+◌, ◌-◌, Bool, true, false, Option, none, some, List, [], ◌∷◌, ltb, length, take,
  if◌then◌else◌, ite, ℕ_discrete,
}

-- `common_tcpmsg_t`, in host byte order.
pub record TcpHeader : Type 0 where
  pub tpkt_hdr : ℕ
  pub system_id : ℕ
  pub msg_type : ℕ
  pub msg_size : ℕ

-- `block_t`, without its links.
pub record Block : Type 0 where
  pub systemid : ℕ
  pub msgtype : ℕ
  pub msgsize : ℕ
  pub alist_idx : ℕ
  pub message : List ℕ

pub record Cell : Type 0 where
  pub block : Block
  pub p_next : Option ℕ

-- What `pp_last` points to: `p_first`, or the `p_next` of a block.
pub data Last : Type 0 where
  at_first : Last
  at_next : ℕ → Last

-- `block_fifo_t`, with the heap.
pub record Fifo : Type 0 where
  pub cell : ℕ → Option Cell
  pub p_first : Option ℕ
  pub pp_last : Last
  pub i_depth : ℕ
  pub i_size : ℕ

abbrev pub M : Type 0 → Type 0
M A = Fifo → Option (A × Fifo)

infixl 5 ◌>>=◌ ◌>>◌
abbrev pub ◌>>=◌ : {X Y : Type 0} → M X → (X → M Y) → M Y
◌>>=◌ first next s = elim (first s) [ none ↦ none | some (x, t) ↦ next x t ]

abbrev pub ◌>>◌ : {Y : Type 0} → M (Unit {0}) → M Y → M Y
first >> next = first >>= λ done. next

abbrev pub pure : {X : Type 0} → X → M X
pure x s = some (x, s)

abbrev pub update : (ℕ → Option Cell) → ℕ → Option Cell → ℕ → Option Cell
update h a c x = ite (ℕ_discrete a x) c (h x)

-- A read, and a write, of the block at an address.
unfoldable pub load : ℕ → M Cell
load a s = elim (s.cell a) [ none ↦ none | some c ↦ some (c, s) ]

unfoldable pub store : ℕ → Option Cell → M (Unit {0})
store a c s = elim (s.cell a) [
  | none ↦ none
  | some _ ↦ some (tt, record s { cell = update s.cell a c })
]

-- `block_FifoNew`, where `malloc` succeeded, over a heap.
pub block_fifo_new : (ℕ → Option Cell) → Fifo
block_fifo_new h = record { cell = h; p_first = none; pp_last = at_first; i_depth = 0; i_size = 0 }

-- What `malloc` answers the two calls of `block_New`: an unused address or null, and whether there
-- is room for the message.
pub record Malloc : Type 0 where
  pub block_at : Option ℕ
  pub message_ok : Bool

-- `block_New`: the new block's message and `alist_idx` are not set. They stand as [] and 0 until
-- `tcp_PutFifo` sets them.
pub block_new : Malloc → TcpHeader → M (Option ℕ)
block_new env rcvmsg s = elim env.block_at [
  | none ↦ some (none, s)
  | some a ↦
      let b : Block = record {
        systemid = rcvmsg.system_id;
        msgtype = rcvmsg.msg_type;
        msgsize = rcvmsg.msg_size;
        alist_idx = 0;
        message = [];
      } in
      if env.message_ok
      then some
          (some a, record s { cell = update s.cell a (some (record { block = b; p_next = none })) })
      else some (none, s)
]

-- `block_Release` of a block that is not null.
unfoldable pub block_release : ℕ → M (Unit {0})
unfolding store
block_release a = store a none

-- `*p_fifo->pp_last = p_block`
pub link : Last → ℕ → M (Unit {0})
unfolding load store
link at_first a s = some (tt, record s { p_first = some a })
link (at_next k) a s = (do c ← load k; store k (some (record c { p_next = some a }))) s

-- One round of the loop of `block_FifoPut`; the address of the next block is returned.
pub put_one : ℕ → M (Option ℕ × ℕ)
unfolding load link
put_one a s =
    (do
      c ← load a
      link s.pp_last a
      c' ← load a
      λ t. some (
        (c'.p_next, c.block.msgsize),
        record t {
          pp_last = at_next a;
          i_depth = t.i_depth + 1;
          i_size = t.i_size + c.block.msgsize;
        },
      ))
      s

-- The loop of `block_FifoPut`, with fuel; `size` is its `i_size`. Out of fuel is a fault.
pub put_loop : ℕ → ℕ → ℕ → M ℕ
unfolding put_one
put_loop zero a size s = none
put_loop (suc fuel) a size s = elim (put_one a s) [
  | none ↦ none
  | some ((none, n), t) ↦ some (size + n, t)
  | some ((some b, n), t) ↦ put_loop fuel b (size + n) t
]

-- `block_FifoPut`. The waiters are signalled, which changes no data.
pub block_fifo_put : ℕ → ℕ → M ℕ
unfolding put_loop
block_fifo_put fuel a = put_loop fuel a 0

-- `if (p_fifo->p_first == NULL) p_fifo->pp_last = &p_fifo->p_first`
pub reset_last : Option ℕ → Last → Last
reset_last none e = at_first
reset_last (some a) e = e

-- The end of `block_FifoGet`, from `b = p_fifo->p_first` on. A null `b` is dereferenced.
pub take_first : M ℕ
unfolding load store reset_last
take_first s = elim s.p_first [
  | none ↦ none
  | some a ↦
      (do
        c ← load a
        λ t. some (
          tt,
          record t {
            p_first = c.p_next;
            pp_last = reset_last c.p_next t.pp_last;
            i_depth = t.i_depth - 1;
            i_size = t.i_size - c.block.msgsize;
          },
        )
        store a (some (record c { p_next = none }))
        pure a)
        s
]

-- How the wait of `pthread_cond_timedwait` ends: with an error such as the time-out, or with the
-- mutex held again over the state that the other threads left.
pub data Wait : Type 0 where
  timed_out : Fifo → Wait
  woken : Fifo → Wait

-- `block_FifoGet`; the inner `none` is a null pointer.
pub block_fifo_get : Wait → M (Option ℕ)
unfolding take_first
block_fifo_get w s = elim s.p_first [
  | some _ ↦ (do a ← take_first; pure (some a)) s
  | none ↦ elim w [ timed_out t ↦ some (none, t) | woken t ↦ (do a ← take_first; pure (some a)) t ]
]

-- `block_FifoShow`, where the wait ends in state `t`.
pub block_fifo_show : Fifo → M (Option ℕ)
block_fifo_show t s = elim s.p_first [ some a ↦ some (some a, s) | none ↦ some (t.p_first, t) ]

-- The loop of `block_FifoEmpty`, with fuel.
pub empty_loop : ℕ → Option ℕ → M (Unit {0})
unfolding load block_release
empty_loop fuel none s = some (tt, s)
empty_loop zero (some a) s = none
empty_loop (suc fuel) (some a) s = elim (s.cell a) [
  | none ↦ none
  | some c ↦ elim (block_release a s) [ none ↦ none | some (_, t) ↦ empty_loop fuel c.p_next t ]
]

-- `block_FifoEmpty`
pub block_fifo_empty : ℕ → M (Unit {0})
unfolding empty_loop
block_fifo_empty fuel s =
    (do
      empty_loop fuel s.p_first
      λ t. some (tt, record t { i_depth = 0; i_size = 0; p_first = none; pp_last = at_first }))
      s

-- `tcp_PutFifo`, given the bytes from `message` on; fewer than `MsgSize` are read beyond their
-- end, a fault. The result is whether it returned 0.
pub tcp_put_fifo : Malloc → TcpHeader → ℕ → List ℕ → M Bool
unfolding block_new load store
tcp_put_fifo env rcvmsg idx bytes = do
  p ← block_new env rcvmsg
  elim p [
    | none ↦ pure false
    | some a ↦ elim (ltb (length bytes) rcvmsg.msg_size) [
      | true ↦ λ s. none
      | false ↦ do
        c ← load a
        store a (
            some (record c {
              block = record (c.block) { message = take rcvmsg.msg_size bytes; alist_idx = idx };
            }))
        n ← block_fifo_put 1 a
        pure true
    ]
  ]
