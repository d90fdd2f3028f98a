-- ===== src/Host/Sock/Accepting.antt =====
-- The table of the connections: what `TcpAccept` and a disconnect do to it.
use vnf_monitoring.Prelude.{
  ℕ, zero, suc, ◌+◌, ◌≡◌, refl, ◌≢◌, ◌⊎◌, inl, inr, true, false, Option, none, some, Option-cases,
  List, ◌==◌, get_elem?, get_or, set, length, length-set, get_elem?-set_self, get_elem?-set_ne,
  arith, All, All-set, All-get_elem?, find_index-some, get_elem?-length, ℕ_discrete, ◌∙◌,
}
use vnf_monitoring.Prelude.Int.{ℤ, pos, negsuc}
use vnf_monitoring.Host.State.{max_system_num}
use vnf_monitoring.Host.Sock.{Accept, Sock, unused_accept, is_pos, free_accept, tcp_accept}

-- An entry has a connection exactly when its port is set.
abbrev pub IsConsistent : Accept → Type 0
IsConsistent a =
    ((is_pos a.accept_fd ≡ true) × (a.port ≢ 0)) ⊎ ((is_pos a.accept_fd ≡ false) × (a.port ≡ 0))

-- The table keeps its size, and stays consistent; every connection in it keeps its entry.
abbrev pub Keeps : List Accept → List Accept → Type 0
Keeps l l2 =
    All IsConsistent l2
    × (length l2 ≡ length l)
    × ((j : ℕ) (a : Accept)
        → get_elem? l j ≡ some a
        → is_pos a.accept_fd ≡ true
        → get_elem? l2 j ≡ some a)

fill-Keeps :
    (l : List Accept) (i : ℕ) (a new : Accept)
    → All IsConsistent l
    → get_elem? l i ≡ some a
    → a.port ≡ 0
    → IsConsistent new
    → Keeps l (set l i new)
fill-Keeps l i a new c e free h = (
  All-set IsConsistent l i new h c,
  length-set l i new,
  λ j b g p. elim (ℕ_discrete i j) [
    | yes same ↦
        let one : a ≡ b = ground (arith, e, g, same) in
        let used = All-get_elem? IsConsistent l j b c g in
        absurd (ground (arith, one, free, used, p))
    | no ne ↦ get_elem?-set_ne l new ne ∙ g
  ],
)

-- The result of `TcpAccept`: -1, the size of the table, or the index of the entry that holds the new
-- connection.
abbrev pub Accepted : Option ℤ → Sock → Sock × ℤ → Type 0
Accepted accepted s r =
    Keeps s.alist r.0.alist
    × ((r.1 ≡ negsuc 0)
        ⊎ ((r.1 ≡ pos max_system_num)
            ⊎ ((i : ℕ) × (a : Accept) × (r.1 ≡ pos i)
                × (get_elem? r.0.alist i ≡ some a)
                × (accepted ≡ some a.accept_fd))))

-- Where the table is consistent, `accept` yields a positive descriptor and the peer's port is not 0,
-- `TcpAccept` keeps the connections that there are, and its result is -1, the size of the table, or
-- the index of the entry that holds the new connection.
pub tcp_accept-Accepted :
    (ntohs : ℕ → ℕ) (listen_fd : ℤ) (accepted : Option ℤ) (from_port : ℕ) (s : Sock)
    → All IsConsistent s.alist
    → ((fd : ℤ) → accepted ≡ some fd → is_pos fd ≡ true)
    → ntohs from_port ≢ 0
    → Accepted accepted s (tcp_accept ntohs listen_fd accepted from_port s)
unfolding tcp_accept free_accept
tcp_accept-Accepted ntohs (negsuc n) accepted from_port s c good port =
    ((c, refl, λ j a g p. g), inl refl)
tcp_accept-Accepted ntohs (pos zero) accepted from_port s c good port =
    ((c, refl, λ j a g p. g), inl refl)
tcp_accept-Accepted ntohs (pos (suc n)) none from_port s c good port =
    ((c, refl, λ j a g p. g), inl refl)
tcp_accept-Accepted ntohs (pos (suc n)) (some fd) from_port s c good port =
    elim (Option-cases (free_accept s.alist)) [
      | inl e ↦ rw (Accepted, tcp_accept, e) ((c, refl, λ j a g p. g), inr (inl refl))
      | inr (i, e) ↦
          let (a, there, free) = find_index-some (λ a. a.port == 0) s.alist i e in
          let new : Accept = record (get_or s.alist i unused_accept) {
            accept_fd = fd;
            systemidx = i + 1;
            port = ntohs from_port;
          } in
          rw (Accepted, tcp_accept, e)
            (
              fill-Keeps s.alist i a new c there (ground (arith, free)) (inl (good fd refl, port)),
              inr (
                  inr (
                    i,
                    new,
                    refl,
                    get_elem?-set_self s.alist i new (get_elem?-length s.alist i a there),
                    refl,
                  )),
            )
    ]
