-- ===== src/Host/Fifo/Chain.antt =====
-- Chains of blocks on the heap of `Host.Fifo`.
use vnf_monitoring.Prelude.{
  ℕ, ◌+◌, ◌≡◌, ◌≢◌, refl, sym, ap, ◌∙◌, Option, none, some, List, [], ◌∷◌, ◌++◌, arith, length,
  if_pos, if_neg, ℕ_discrete,
}
use vnf_monitoring.Host.Fifo.{Block, Cell, Last, at_first, at_next, update}

-- A block at its address.
abbrev pub Placed : Type 0
Placed = ℕ × Block

abbrev pub Heap : Type 0
Heap = ℕ → Option Cell

-- From the pointer `p` the blocks `l` can be reached, in this order, up to a null pointer.
abbrev pub Chain : Heap → Option ℕ → List Placed → Type 0
Chain h p [] = p ≡ none
Chain h p ((a, b) ∷ l) =
    (p ≡ some a) × (n : Option ℕ) × (h a ≡ some (record { block = b; p_next = n })) × Chain h n l

-- No block of `l` is at the address `a`.
abbrev pub Away : ℕ → List Placed → Type 0
Away a [] = Unit
Away a ((k, b) ∷ l) = (a ≢ k) × Away a l

abbrev pub Distinct : List Placed → Type 0
Distinct [] = Unit
Distinct ((a, b) ∷ l) = Away a l × Distinct l

-- The address of the last block, of the chain of `l` behind the block at `k`.
abbrev pub last_at : ℕ → List Placed → ℕ
last_at k [] = k
last_at k ((a, b) ∷ l) = last_at a l

-- The pointer behind the last block.
abbrev pub last_of : List Placed → Last
last_of [] = at_first
last_of ((a, b) ∷ l) = at_next (last_at a l)

abbrev pub total_size : List Placed → ℕ
total_size [] = 0
total_size ((a, b) ∷ l) = b.msgsize + total_size l

pub update_self : (h : Heap) (a : ℕ) (c : Option Cell) → update h a c a ≡ c
update_self h a c = if_pos (ℕ_discrete a a) refl _ _

pub update_ne : (h : Heap) (a : ℕ) (c : Option Cell) (k : ℕ) → a ≢ k → update h a c k ≡ h k
update_ne h a c k ne = if_neg (ℕ_discrete a k) ne _ _

-- A write elsewhere leaves a chain alone.
pub Chain-update :
    (h : Heap) (a : ℕ) (c : Option Cell) (p : Option ℕ) (l : List Placed)
    → Away a l
    → Chain h p l
    → Chain (update h a c) p l
Chain-update h a c p [] away e = e
Chain-update h a c p ((k, b) ∷ l) away (e, n, at, rest) =
    (e, n, update_ne h a c k away.0 ∙ at, Chain-update h a c n l away.1 rest)

pub Away-last_at : (a k : ℕ) (b : Block) (l : List Placed) → Away a ((k, b) ∷ l) → a ≢ last_at k l
Away-last_at a k b [] away = away.0
Away-last_at a k b ((k', b') ∷ l) away = Away-last_at a k' b' l away.1

-- The last block of a chain is on the heap.
pub last_cell :
    (h : Heap) (k : ℕ) (b : Block) (l : List Placed) (p : Option ℕ)
    → Chain h p ((k, b) ∷ l)
    → (c : Cell) × (h (last_at k l) ≡ some c)
last_cell h k b [] p (q, n, at, rest) = (record { block = b; p_next = n }, at)
last_cell h k b ((k', b') ∷ l) p (q, n, at, rest) = last_cell h k' b' l n rest

abbrev pub relinked : Cell → ℕ → Cell
relinked c a = record c { p_next = some a }

-- With `p_next` of its last block set to a block outside, a chain goes on with that block.
pub Chain-link :
    (h : Heap) (a : ℕ) (new : Block) (c : Cell) (k : ℕ) (b : Block) (l : List Placed) (p : Option ℕ)
    → h a ≡ some (record { block = new; p_next = none })
    → h (last_at k l) ≡ some c
    → Distinct ((k, b) ∷ l)
    → Away a ((k, b) ∷ l)
    → Chain h p ((k, b) ∷ l)
    → Chain (update h (last_at k l) (some (relinked c a))) p (((k, b) ∷ l) ++ ((a, new) ∷ []))
Chain-link h a new c k b [] p fresh lc d away (q, n, at, rest) = (
  q,
  some a,
  update_self h k _ ∙ ground arith,
  (refl, none, update_ne h k _ a (λ e. away.0 (sym e)) ∙ fresh, refl),
)
Chain-link h a new c k b ((k', b') ∷ l) p fresh lc d away (q, n, at, rest) = (
  q,
  n,
  update_ne h (last_at k' l) _ k (λ e. Away-last_at k k' b' l d.0 (sym e)) ∙ at,
  Chain-link h a new c k' b' l n fresh lc d.1 away.1 rest,
)

pub Distinct-append :
    (l : List Placed) (a : ℕ) (b : Block) → Distinct l → Away a l → Distinct (l ++ ((a, b) ∷ []))
Distinct-append [] a b d away = (tt, tt)
Distinct-append ((k, c) ∷ l) a b d away = (Away-append l d.0, Distinct-append l a b d.1 away.1)
  where
    Away-append : (l : List Placed) → Away k l → Away k (l ++ ((a, b) ∷ []))
    Away-append [] u = ((λ e. away.0 (sym e)), tt)
    Away-append ((j, x) ∷ m) u = (u.0, Away-append m u.1)

pub last_at-append :
    (k : ℕ) (l : List Placed) (a : ℕ) (b : Block) → last_at k (l ++ ((a, b) ∷ [])) ≡ a
last_at-append k [] a b = refl
last_at-append k ((j, x) ∷ l) a b = last_at-append j l a b

pub last_of-append :
    (l : List Placed) (a : ℕ) (b : Block) → last_of (l ++ ((a, b) ∷ [])) ≡ at_next a
last_of-append [] a b = refl
last_of-append ((k, x) ∷ l) a b = ap at_next (last_at-append k l a b)

pub total_size-append :
    (l : List Placed) (a : ℕ) (b : Block)
    → total_size (l ++ ((a, b) ∷ [])) ≡ total_size l + b.msgsize
total_size-append [] a b = omega arith
total_size-append ((k, x) ∷ l) a b = omega (arith, total_size-append l a b)

pub length-append_one : (l : List Placed) (p : Placed) → length (l ++ (p ∷ [])) ≡ length l + 1
length-append_one [] p = omega arith
length-append_one (x ∷ l) p = omega (arith, length-append_one l p)
