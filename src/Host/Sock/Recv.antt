-- ===== src/Host/Sock/Recv.antt =====
-- What a result of `TcpRecv` says, and messages cut into pieces.
use vnf_monitoring.Prelude.{
  ℕ, zero, suc, ◌+◌, ◌-◌, ◌≤◌, ◌<◌, ◌≡◌, refl, ◌≢◌, ◌⊎◌, inl, inr, Bool, true, false, Bool-cases,
  Option, none, some, Option-cases, List, [], ◌∷◌, ◌==◌, ◌&&◌, length, Leaves, arith, sym,
  length-append,
}
use vnf_monitoring.Prelude.Int.{ℤ, pos, negsuc}
use vnf_monitoring.Host.Sock.{
  Sock, is_pos, RecvAnswer, chunk, interrupted, failed, Received, prepend, recv_loop, is_whole,
  datasize, disconnect_machine, tcp_recv, tpkt_header_size,
}

-- What the system promises of `recv`: no more bytes than asked for, here `n` in all.
abbrev pub Fits : List RecvAnswer → ℕ → Type 0
Fits answers zero = Unit
Fits [] (suc n) = Unit
Fits (chunk [] ∷ answers) (suc n) = Unit
Fits (chunk (x ∷ b) ∷ answers) (suc n) = (length b ≤ n) × Fits answers (n - length b)
Fits (interrupted ∷ answers) (suc n) = Fits answers (suc n)
Fits (failed ∷ answers) (suc n) = Unit

-- The loop ends with all the bytes, or with too few and a last result of 0 or -1.
abbrev pub Ends : ℕ → ℤ → Received → Type 0
Ends n last r =
    ((length r.bytes ≡ n) × ((n ≡ 0) → r.last ≡ last) × (n ≢ 0 → is_pos r.last ≡ true))
    ⊎ ((length r.bytes < n) × (is_pos r.last ≡ false))

ℕ-cases : (n : ℕ) → (n ≡ 0) ⊎ (n ≢ 0)
ℕ-cases zero = inl refl
ℕ-cases (suc n) = inr (λ e. omega arith)

last-Ends :
    (n : ℕ) (last l2 : ℤ) (o : Option Received)
    → Leaves (Ends (suc n) last) o
    → Leaves (Ends (suc n) l2) o
last-Ends n last l2 none e = tt
last-Ends n last l2 (some r) (inl (len, same, nz)) = inl (len, λ e. absurd (omega arith), nz)
last-Ends n last l2 (some r) (inr h) = inr h

prepend-Ends :
    (x : ℕ) (b : List ℕ) (n : ℕ) (o : Option Received)
    → length b ≤ n
    → Leaves (Ends (n - length b) (pos (suc (length b)))) o
    → (last : ℤ)
    → Leaves
        (Ends (suc n) last)
        (elim o as (λ z. Option Received) [ none ↦ none | some r ↦ some (prepend (x ∷ b) r) ])
prepend-Ends x b n none le e last = tt
prepend-Ends x b n (some r) le (inl (len, same, nz)) last = inl (
  omega (arith, length-append b r.bytes, len, le),
  λ e. absurd (omega arith),
  λ ne. elim (ℕ-cases (n - length b)) [ inl e ↦ rw (same e) refl | inr k ↦ nz k ],
)
prepend-Ends x b n (some r) le (inr (len, np)) last =
    inr (omega (arith, length-append b r.bytes, len, le), np)

pub recv_loop-Ends :
    (answers : List RecvAnswer) (n : ℕ) (last : ℤ)
    → Fits answers n
    → Leaves (Ends n last) (recv_loop answers n last)
unfolding recv_loop
recv_loop-Ends answers zero last f = inl (refl, λ e. refl, λ ne. absurd (ne refl))
recv_loop-Ends [] (suc n) last f = tt
recv_loop-Ends (chunk [] ∷ answers) (suc n) last f = inr (omega arith, refl)
recv_loop-Ends (chunk (x ∷ b) ∷ answers) (suc n) last f =
    prepend-Ends x b n (recv_loop answers (n - length b) (pos (suc (length b)))) f.0
      (recv_loop-Ends answers (n - length b) (pos (suc (length b))) f.1) last
recv_loop-Ends (interrupted ∷ answers) (suc n) last f =
    last-Ends n (negsuc 0) last (recv_loop answers (suc n) (negsuc 0))
      (recv_loop-Ends answers (suc n) (negsuc 0) f)
recv_loop-Ends (failed ∷ answers) (suc n) last f = inr (omega arith, refl)

-- The loop's two outcomes, as its caller tests them.
whole-Ends :
    (n k : ℕ) (last : ℤ) (r : Received)
    → Ends n last r
    → is_pos last ≡ false
    → ((k + length r.bytes == k + n) && is_pos r.last) ≡ is_pos r.last
whole-Ends n k last r (inl (len, same, nz)) np = ground (arith, len)
whole-Ends n k last r (inr (len, e)) np = ground (arith, len, e)

-- What a result of `TcpRecv` says: it is positive and the state is as before, or it is not and the
-- connection was ended.
abbrev pub Outcome : ℕ → Sock → Sock × ℤ × List ℕ → Type 0
Outcome i s r =
    ((is_pos r.1 ≡ true) × (r.0 ≡ s)) ⊎ ((is_pos r.1 ≡ false) × (r.0 ≡ disconnect_machine i s))

header-Outcome :
    (i : ℕ) (s : Sock) (h : Received)
    → Ends 4 (pos 0) h
    → is_whole tpkt_header_size h ≡ false
    → Outcome i s (disconnect_machine i s, h.last, [])
header-Outcome i s h ends part = inr (ground (arith, whole-Ends 4 0 (pos 0) h ends, part), refl)

payload-test :
    (total : ℕ) (b : Received)
    → Ends (total - 4) (pos 0) b
    → ((tpkt_header_size + length b.bytes == total) && is_pos b.last) ≡ is_pos b.last
payload-test total b (inl (len, same, nz)) = elim (ℕ-cases (total - 4)) [
  | inl z ↦ rw (same z) (ground arith)
  | inr k ↦ ground (arith, len, nz k, k)
]
payload-test total b (inr (len, e)) = ground (arith, e)

choose-Outcome :
    (i : ℕ) (s : Sock) (t : Bool) (last : ℤ) (bytes : List ℕ)
    → t ≡ is_pos last
    → Outcome i s (elim t as (λ z. Sock) [ true ↦ s | false ↦ disconnect_machine i s ], last, bytes)
choose-Outcome i s true last bytes e = inl (sym e, refl)
choose-Outcome i s false last bytes e = inr (sym e, refl)

payload-Outcome :
    (i : ℕ) (s : Sock) (total : ℕ) (o : Option Received)
    → Leaves (Ends (total - 4) (pos 0)) o
    → Leaves (Outcome i s) (elim o as (λ z. Option (Sock × ℤ × List ℕ)) [
      | none ↦ none
      | some b ↦ some (
        elim ((tpkt_header_size + length b.bytes == total) && is_pos b.last) [
          | true ↦ s
          | false ↦ disconnect_machine i s
        ],
        b.last,
        b.bytes,
      )
    ])
payload-Outcome i s total none e = tt
payload-Outcome i s total (some b) e =
    choose-Outcome i s ((tpkt_header_size + length b.bytes == total) && is_pos b.last) b.last
      b.bytes (payload-test total b e)

-- Where `recv` never gives more bytes than asked for, for the header and for the payload, a positive
-- result of `TcpRecv` leaves the state as it was, and any other one means that the connection was
-- ended and what is kept of its machine cleared.
pub tcp_recv-Outcome :
    (ntohs : ℕ → ℕ) (i : ℕ) (answers : List RecvAnswer) (s : Sock)
    → Fits answers 4
    → ((h : Received)
        → recv_loop answers 4 (pos 0) ≡ some h
        → Fits h.rest (datasize ntohs h.bytes - 4))
    → Leaves (Outcome i s) (tcp_recv ntohs i answers s)
unfolding tcp_recv
tcp_recv-Outcome ntohs i answers s f g = elim (Option-cases (recv_loop answers 4 (pos 0))) [
  | inl e ↦ rw (Leaves, tcp_recv, e) tt
  | inr (h, e) ↦ elim (Bool-cases (is_whole tpkt_header_size h)) [
    | inl whole ↦
        rw (tcp_recv, e, whole)
          (payload-Outcome i s (datasize ntohs h.bytes)
            (recv_loop h.rest (datasize ntohs h.bytes - 4) (pos 0))
            (recv_loop-Ends h.rest (datasize ntohs h.bytes - 4) (pos 0) (g h e)))
    | inr part ↦
        rw (tcp_recv, e, part)
          (header-Outcome i s h (rw e at (recv_loop-Ends answers 4 (pos 0) f)) part)
  ]
]
