-- ===== src/Host/Sock/Send.antt =====
-- What a result of `TcpSend` says, and that `TcpRecv` reads back what `TcpSend` wrote, in whatever
-- pieces it arrives.
use vnf_monitoring.Prelude.{
  ℕ, zero, suc, ◌+◌, ◌-◌, ◌*◌, ◌/◌, ◌%◌, ◌^◌, ◌<◌, ◌≡◌, refl, ◌⊎◌, inl, inr, true, false, not,
  Bool-cases, Option, none, some, Option-cases, List, [], ◌∷◌, ◌++◌, ◌==◌, ◌&&◌, ◌||◌, length, drop,
  take, map, Leaves, arith, ap, sym, ◌∙◌, length-append, length-drop,
}
use vnf_monitoring.Prelude.Int.{ℤ, pos, negsuc}
use vnf_monitoring.Host.Sock.{
  Sock, is_pos, RecvAnswer, chunk, Received, prepend, recv_loop, is_whole, datasize, disconnect,
  tcp_recv, tcp_send, with_tpkt, Poll, wait_writable, SendAnswer, send_loop, tcp_snd_retry,
  given_up, lost, writable,
}

-- Non-empty pieces.
abbrev pub ArePieces : List (List ℕ) → Type 0
ArePieces [] = Unit
ArePieces ([] ∷ l) = ⊥
ArePieces ((x ∷ b) ∷ l) = ArePieces l

abbrev pub joined : List (List ℕ) → List ℕ
joined [] = []
joined (b ∷ l) = b ++ joined l

-- The loop has taken the bytes `b`, and stops in front of `rest`.
abbrev Takes : List ℕ → List RecvAnswer → Option Received → Type 0
Takes b rest o =
    (r : Received) × (o ≡ some r) × (r.bytes ≡ b) × (is_pos r.last ≡ true) × (r.rest ≡ rest)

prepend-Takes :
    (x : ℕ) (b c : List ℕ) (rest : List RecvAnswer) (o : Option Received)
    → Takes c rest o
    → Takes
        (x ∷ b ++ c)
        rest
        (elim o as (λ z. Option Received) [ none ↦ none | some r ↦ some (prepend (x ∷ b) r) ])
prepend-Takes x b c rest o (r, e, bytes, p, k) =
    (prepend (x ∷ b) r, rw e refl, ap (λ z. x ∷ b ++ z) bytes, p, k)

-- The pieces one after the other are taken by one run of the loop.
recv_loop-later :
    (l : List (List ℕ)) (rest : List RecvAnswer) (n : ℕ) (last : ℤ)
    → ArePieces l
    → is_pos last ≡ true
    → n ≡ length (joined l)
    → Takes (joined l) rest (recv_loop (map chunk l ++ rest) n last)
unfolding recv_loop
recv_loop-later [] rest zero last p ne e = (_, refl, refl, ne, refl)
recv_loop-later [] rest (suc n) last p ne e = absurd (omega arith)
recv_loop-later ([] ∷ l) rest n last p ne e = absurd p
recv_loop-later ((x ∷ b) ∷ l) rest zero last p ne e = absurd (omega arith)
recv_loop-later ((x ∷ b) ∷ l) rest (suc n) last p ne e = prepend-Takes x b (joined l) rest _ (
    recv_loop-later l rest (n - length b) (pos (suc (length b))) p refl
      (omega (arith, length-append b (joined l))))

recv_loop-pieces :
    (b : List ℕ) (l : List (List ℕ)) (rest : List RecvAnswer) (n : ℕ) (last : ℤ)
    → ArePieces (b ∷ l)
    → n ≡ length (joined (b ∷ l))
    → Takes (joined (b ∷ l)) rest (recv_loop (map chunk (b ∷ l) ++ rest) n last)
unfolding recv_loop
recv_loop-pieces [] l rest n last p e = absurd p
recv_loop-pieces (x ∷ b) l rest zero last p e = absurd (omega arith)
recv_loop-pieces (x ∷ b) l rest (suc n) last p e = prepend-Takes x b (joined l) rest _ (
    recv_loop-later l rest (n - length b) (pos (suc (length b))) p refl
      (omega (arith, length-append b (joined l))))

-- The header gives the size of the message back.
datasize-with_tpkt :
    (htons ntohs : ℕ → ℕ) (msg h : List ℕ)
    → ((n : ℕ) → n < 2 ^ 16 → htons n < 2 ^ 16)
    → ((n : ℕ) → n < 2 ^ 16 → ntohs (htons n) ≡ n)
    → length msg < 2 ^ 16
    → h ≡ take 4 (with_tpkt htons msg)
    → datasize ntohs h ≡ length msg
unfolding datasize with_tpkt
datasize-with_tpkt htons ntohs msg h small inverse short e =
    let k = htons (length msg % 2 ^ 16) in
    let bound = small (length msg % 2 ^ 16) (omega arith) in
    let again : (k / 2 ^ 8 % 2 ^ 8 * 2 ^ 8 + k % 2 ^ 8) % 2 ^ 16 ≡ k = omega (arith, bound) in
    rw (e, again) (inverse (length msg % 2 ^ 16) (omega arith) ∙ omega (arith, short))

whole-test : (n m : ℕ) (last : ℤ) → m ≡ n → is_pos last ≡ true → ((m == n) && is_pos last) ≡ true
whole-test n m last e p = ground (arith, e, p)

tcp_recv-whole :
    (ntohs : ℕ → ℕ) (i : ℕ) (answers : List RecvAnswer) (s : Sock) (h r : Received)
    → recv_loop answers 4 (pos 0) ≡ some h
    → is_whole 4 h ≡ true
    → recv_loop h.rest (datasize ntohs h.bytes - 4) (pos 0) ≡ some r
    → ((4 + length r.bytes == datasize ntohs h.bytes) && is_pos r.last) ≡ true
    → tcp_recv ntohs i answers s ≡ some (s, r.last, r.bytes)
unfolding tcp_recv
tcp_recv-whole ntohs i answers s h r eh wh er wr = rw (tcp_recv, eh, wh, er, wr) refl

-- `TcpRecv` reads back what `TcpSend` wrote, header and payload each in whatever non-empty pieces:
-- for a message of 5 to 65535 bytes it returns a positive number, leaves the state as it was, and has
-- put the payload behind the header's place.
pub tcp_recv-with_tpkt :
    (htons ntohs : ℕ → ℕ) (i : ℕ) (msg b c : List ℕ) (l k : List (List ℕ)) (rest : List RecvAnswer)
    (s : Sock)
    → ((n : ℕ) → n < 2 ^ 16 → htons n < 2 ^ 16)
    → ((n : ℕ) → n < 2 ^ 16 → ntohs (htons n) ≡ n)
    → 4 < length msg
    → length msg < 2 ^ 16
    → ArePieces (b ∷ l)
    → ArePieces (c ∷ k)
    → joined (b ∷ l) ≡ take 4 (with_tpkt htons msg)
    → joined (c ∷ k) ≡ drop 4 msg
    → (n : ℤ) × (is_pos n ≡ true)
      × (tcp_recv ntohs i (map chunk (b ∷ l) ++ (map chunk (c ∷ k) ++ rest)) s
          ≡ some (s, n, drop 4 msg))
unfolding with_tpkt
tcp_recv-with_tpkt htons ntohs i msg b c l k rest s small inverse long short p q eh ep =
    let (h, taken, bytes, hpos, left) =
      recv_loop-pieces b l (map chunk (c ∷ k) ++ rest) 4 (pos 0) p (rw eh refl) in
    let size : datasize ntohs h.bytes ≡ length msg =
      datasize-with_tpkt htons ntohs msg h.bytes small inverse short (bytes ∙ eh) in
    let (r, taken2, bytes2, rpos, left2) =
      recv_loop-pieces c k rest (length msg - 4) (pos 0) q (rw ep (sym (length-drop 4 msg))) in
    let head_len : length h.bytes ≡ 4 = ap length (bytes ∙ eh) in
    let pay_len : length r.bytes ≡ length msg - 4 = ap length (bytes2 ∙ ep) ∙ length-drop 4 msg in
    (
      r.last,
      rpos,
      tcp_recv-whole ntohs i (map chunk (b ∷ l) ++ (map chunk (c ∷ k) ++ rest)) s h r taken
            (whole-test 4 (length h.bytes) h.last head_len hpos)
            (ap (λ n. recv_loop h.rest (n - 4) (pos 0)) size
              ∙ ap (λ a. recv_loop a (length msg - 4) (pos 0)) left
              ∙ taken2)
            (whole-test (datasize ntohs h.bytes) (4 + length r.bytes) r.last
              (omega (arith, pay_len, size, long)) rpos)
          ∙ ap (λ z. some (s, r.last, z)) (bytes2 ∙ ep),
    )

-- What a result of `TcpSend` says.
abbrev pub SendOutcome : (ℕ → ℕ) → ℕ → List ℕ → Sock → Sock × ℤ × List ℕ → Type 0
SendOutcome htons i msg s r =
    ((r.1 ≡ pos (length msg)) × (r.0 ≡ s) × (r.2 ≡ with_tpkt htons msg))
    ⊎ ((r.1 ≡ negsuc 0) × ((r.2 ≡ []) ⊎ (r.0 ≡ disconnect i s)))

loop-Outcome :
    (htons : ℕ → ℕ) (i : ℕ) (msg : List ℕ) (s : Sock) (o : Option (ℕ × ℤ))
    → Leaves (SendOutcome htons i msg s) (elim o as (λ z. Option (Sock × ℤ × List ℕ)) [
      | none ↦ none
      | some (total, last) ↦ elim ((total == length msg) && is_pos last) [
        | true ↦ some (s, pos total, with_tpkt htons msg)
        | false ↦ some (disconnect i s, negsuc 0, take total (with_tpkt htons msg))
      ]
    ])
loop-Outcome htons i msg s none = tt
loop-Outcome htons i msg s (some (total, last)) =
    elim (Bool-cases ((total == length msg) && is_pos last)) [
      | inl e ↦ rw (Leaves, e) (inl (ap pos (ground (arith, e)), refl, refl))
      | inr e ↦ rw (Leaves, e) (inr (refl, inr refl))
    ]

-- A result of `TcpSend` is the length of the message, and then all of it went out under its header
-- and the state is as before, or it is -1, and then nothing went out or the connection was ended.
tcp_send-Outcome :
    (htons : ℕ → ℕ) (i : ℕ) (fd : ℤ) (polls : List Poll) (answers : List SendAnswer) (msg : List ℕ)
    (s : Sock)
    → Leaves (SendOutcome htons i msg s) (tcp_send htons i fd polls answers msg s)
unfolding tcp_send
tcp_send-Outcome htons i fd polls answers msg s =
    elim (Bool-cases (not (is_pos fd) || (length msg == 0))) [
      | inl e ↦ rw (Leaves, tcp_send, e) (inr (refl, inl refl))
      | inr e ↦ elim (Option-cases (wait_writable polls tcp_snd_retry)) [
        | inl w ↦ rw (Leaves, tcp_send, e, w) tt
        | inr (given_up, w) ↦ rw (Leaves, tcp_send, e, w) (inr (refl, inl refl))
        | inr (lost, w) ↦ rw (Leaves, tcp_send, e, w) (inr (refl, inl refl))
        | inr (writable, w) ↦
            rw (tcp_send, e, w)
              (loop-Outcome htons i msg s (send_loop answers (length msg) (pos 0)))
      ]
    ]
