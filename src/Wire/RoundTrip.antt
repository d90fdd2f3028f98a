-- ===== src/Wire/RoundTrip.antt =====
-- The bytes of a message are read back as the message.
use vnf_monitoring.Prelude.{
  ℕ, zero, suc, ◌*◌, ◌^◌, ◌<◌, ◌≡◌, ◌≢◌, refl, sym, ap, ◌∙◌, List, [], ◌∷◌, ◌++◌, take, drop,
  replicate, length, All, arith, append_assoc, length-append, length-take, length-replicate,
}
use vnf_monitoring.Host.State.{ProcessState}
use vnf_monitoring.Host.Fifo.{TcpHeader}
use vnf_monitoring.Host.Reports.{VmProcStateMsg}
use vnf_monitoring.Wire.{
  u16_bytes, u32_bytes, u16_at, u32_at, text_bytes, text_of, text_at, header_bytes, header_at,
  process_bytes, process_at, processes_bytes, processes_at, report_bytes, report_at,
}

pub drop-exact : (n : ℕ) (k l : List ℕ) → length k ≡ n → drop n (k ++ l) ≡ l
drop-exact zero [] l e = refl
drop-exact zero (x ∷ k) l e = absurd (omega (arith, e))
drop-exact (suc n) [] l e = absurd (omega (arith, e))
drop-exact (suc n) (x ∷ k) l e = drop-exact n k l (omega (arith, e))

pub take-exact : (n : ℕ) (k l : List ℕ) → length k ≡ n → take n (k ++ l) ≡ k
take-exact zero [] l e = refl
take-exact zero (x ∷ k) l e = absurd (omega (arith, e))
take-exact (suc n) [] l e = absurd (omega (arith, e))
take-exact (suc n) (x ∷ k) l e = ap (λ r. x ∷ r) (take-exact n k l (omega (arith, e)))

pub u32_at-u32_bytes : (n : ℕ) (l : List ℕ) → n < 2 ^ 32 → u32_at (u32_bytes n ++ l) ≡ n
unfolding u32_at u32_bytes
u32_at-u32_bytes n l h = omega arith

pub u16_at-u16_bytes : (n : ℕ) (l : List ℕ) → n < 2 ^ 16 → u16_at (u16_bytes n ++ l) ≡ n
unfolding u16_at u16_bytes
u16_at-u16_bytes n l h = omega arith

length-u32_bytes : (n : ℕ) → length (u32_bytes n) ≡ 4
unfolding u32_bytes
length-u32_bytes n = refl

-- A text that an array of `n` bytes holds with its end.
abbrev pub IsText : ℕ → List ℕ → Type 0
IsText n text = (length text < n) × All (λ c. c ≢ 0) text

length-text_bytes : (n : ℕ) (text : List ℕ) → length (text_bytes n text) ≡ n
unfolding text_bytes
length-text_bytes n text = omega (
  arith,
  length-take n (text ++ replicate n 0),
  length-append text (replicate n 0),
  length-replicate {A = ℕ} n 0,
)

text_of-text_bytes :
    (n m : ℕ) (text : List ℕ)
    → length text < n
    → 0 < m
    → All (λ c. c ≢ 0) text
    → text_of (take n (text ++ replicate m 0)) ≡ text
unfolding text_of
text_of-text_bytes zero m text h p a = absurd (omega (arith, h))
text_of-text_bytes (suc n) zero [] h p a = absurd (omega (arith, p))
text_of-text_bytes (suc n) (suc m) [] h p a = ground arith
text_of-text_bytes (suc n) m (c ∷ text) h p a =
    ground (arith, a.0, text_of-text_bytes n m text (omega arith) p a.1)

text_at-text_bytes :
    (n : ℕ) (text l : List ℕ) → IsText n text → text_at n (text_bytes n text ++ l) ≡ text
unfolding text_at text_bytes
text_at-text_bytes n text l t =
    ap text_of (take-exact n (text_bytes n text) l (length-text_bytes n text))
    ∙ text_of-text_bytes n n text t.0 (omega (arith, t.0)) t.1

abbrev pub IsProcess : ProcessState → Type 0
IsProcess p = IsText 64 p.process_name × (p.process_state < 2 ^ 32)

process_at-fields :
    (l name_rest name : List ℕ) (state : ℕ)
    → drop 64 l ≡ name_rest
    → text_at 64 l ≡ name
    → u32_at name_rest ≡ state
    → process_at l ≡ record { process_name = name; process_state = state }
unfolding process_at
process_at-fields l name_rest name state e f g = rw (process_at, e, f, g) refl

process_at-process_bytes :
    (p : ProcessState) (l : List ℕ) → IsProcess p → process_at (process_bytes p ++ l) ≡ p
unfolding process_bytes
process_at-process_bytes p l (t, small) =
    let name = text_bytes 64 p.process_name in
    let rest = u32_bytes p.process_state ++ l in
    ap process_at (append_assoc name (u32_bytes p.process_state) l)
    ∙ process_at-fields (name ++ rest) rest p.process_name p.process_state
        (drop-exact 64 name rest (length-text_bytes 64 p.process_name))
        (text_at-text_bytes 64 p.process_name rest t) (u32_at-u32_bytes p.process_state l small)

length-process_bytes : (p : ProcessState) → length (process_bytes p) ≡ 68
unfolding process_bytes u32_bytes
length-process_bytes p = omega (
  arith,
  length-append (text_bytes 64 p.process_name) (u32_bytes p.process_state),
  length-text_bytes 64 p.process_name,
)

processes_at-processes_bytes :
    (l : List ProcessState) (rest : List ℕ)
    → All IsProcess l
    → processes_at (length l) (processes_bytes l ++ rest) ≡ l
unfolding processes_at processes_bytes
processes_at-processes_bytes [] rest a = refl
processes_at-processes_bytes (p ∷ l) rest a =
    let tail = processes_bytes l ++ rest in
    let split : processes_bytes (p ∷ l) ++ rest ≡ process_bytes p ++ tail =
      append_assoc (process_bytes p) (processes_bytes l) rest in
    rw
      (
        split,
        process_at-process_bytes p tail a.0,
        drop-exact 68 (process_bytes p) tail (length-process_bytes p),
        processes_at-processes_bytes l rest a.1,
      )
      refl

length-processes_bytes : (l : List ProcessState) → length (processes_bytes l) ≡ 68 * length l
unfolding processes_bytes
length-processes_bytes [] = refl
length-processes_bytes (p ∷ l) = omega (
  arith,
  length-append (process_bytes p) (processes_bytes l),
  length-process_bytes p,
  length-processes_bytes l,
)

-- A message whose numbers fit 32 bits, whose texts fit their arrays, and which has the 12 process
-- states that the structure has room for.
pub record IsReport (m : VmProcStateMsg) : Type 0 where
  pub ip : m.vm_ipaddress < 2 ^ 32
  pub type : m.vm_type < 2 ^ 32
  pub procs : m.pcount < 2 ^ 32
  pub id : IsText 64 m.vm_id
  pub name : IsText 32 m.vm_name
  pub manager : IsText 16 m.manage_ip
  pub states : All IsProcess m.pstate
  pub twelve : length m.pstate ≡ 12

report_at-fields :
    (l r1 r2 r3 r4 r5 r6 vm_id vm_name manage_ip : List ℕ) (ip type pcount : ℕ)
    (ps : List ProcessState)
    → drop 4 l ≡ r1
    → drop 4 r1 ≡ r2
    → drop 4 r2 ≡ r3
    → drop 64 r3 ≡ r4
    → drop 32 r4 ≡ r5
    → drop 16 r5 ≡ r6
    → u32_at l ≡ ip
    → u32_at r1 ≡ type
    → u32_at r2 ≡ pcount
    → text_at 64 r3 ≡ vm_id
    → text_at 32 r4 ≡ vm_name
    → text_at 16 r5 ≡ manage_ip
    → processes_at 12 r6 ≡ ps
    → report_at l ≡ record {
      vm_ipaddress = ip;
      vm_type = type;
      pcount = pcount;
      vm_id = vm_id;
      vm_name = vm_name;
      manage_ip = manage_ip;
      pstate = ps;
    }
unfolding report_at
report_at-fields l r1 r2 r3 r4 r5 r6 vm_id vm_name manage_ip ip type pcount ps d1 d2 d3 d4 d5 d6 e1
      e2 e3 e4 e5 e6 e7 =
    rw (report_at, d1, d2, d3, d4, d5, d6, e1, e2, e3, e4, e5, e6, e7) refl

append_assoc7 :
    (a b c d e f g r : List ℕ)
    → (a ++ (b ++ (c ++ (d ++ (e ++ (f ++ g)))))) ++ r
      ≡ a ++ (b ++ (c ++ (d ++ (e ++ (f ++ (g ++ r))))))
append_assoc7 a b c d e f g r =
    rw
      (
        append_assoc a (b ++ (c ++ (d ++ (e ++ (f ++ g))))) r,
        append_assoc b (c ++ (d ++ (e ++ (f ++ g)))) r,
        append_assoc c (d ++ (e ++ (f ++ g))) r,
        append_assoc d (e ++ (f ++ g)) r,
        append_assoc e (f ++ g) r,
        append_assoc f g r,
      )
      refl

-- The bytes of a message, with whatever behind them, are read back as the message.
pub report_at-report_bytes :
    (m : VmProcStateMsg) (rest : List ℕ) → IsReport m → report_at (report_bytes m ++ rest) ≡ m
unfolding report_bytes
report_at-report_bytes m rest v =
    let t6 = processes_bytes m.pstate ++ rest in
    let t5 = text_bytes 16 m.manage_ip ++ t6 in
    let t4 = text_bytes 32 m.vm_name ++ t5 in
    let t3 = text_bytes 64 m.vm_id ++ t4 in
    let t2 = u32_bytes m.pcount ++ t3 in
    let t1 = u32_bytes m.vm_type ++ t2 in
    ap report_at (
      append_assoc7 (u32_bytes m.vm_ipaddress) (u32_bytes m.vm_type) (u32_bytes m.pcount)
        (text_bytes 64 m.vm_id) (text_bytes 32 m.vm_name) (text_bytes 16 m.manage_ip)
        (processes_bytes m.pstate) rest)
    ∙ report_at-fields (u32_bytes m.vm_ipaddress ++ t1) t1 t2 t3 t4 t5 t6 m.vm_id m.vm_name
        m.manage_ip m.vm_ipaddress m.vm_type m.pcount m.pstate
        (drop-exact 4 (u32_bytes m.vm_ipaddress) t1 (length-u32_bytes m.vm_ipaddress))
        (drop-exact 4 (u32_bytes m.vm_type) t2 (length-u32_bytes m.vm_type))
        (drop-exact 4 (u32_bytes m.pcount) t3 (length-u32_bytes m.pcount))
        (drop-exact 64 (text_bytes 64 m.vm_id) t4 (length-text_bytes 64 m.vm_id))
        (drop-exact 32 (text_bytes 32 m.vm_name) t5 (length-text_bytes 32 m.vm_name))
        (drop-exact 16 (text_bytes 16 m.manage_ip) t6 (length-text_bytes 16 m.manage_ip))
        (u32_at-u32_bytes m.vm_ipaddress t1 v.ip) (u32_at-u32_bytes m.vm_type t2 v.type)
        (u32_at-u32_bytes m.pcount t3 v.procs) (text_at-text_bytes 64 m.vm_id t4 v.id)
        (text_at-text_bytes 32 m.vm_name t5 v.name) (text_at-text_bytes 16 m.manage_ip t6 v.manager)
        (ap (λ n. processes_at n t6) (sym v.twelve)
          ∙ processes_at-processes_bytes m.pstate rest v.states)

pub length-report_bytes :
    (m : VmProcStateMsg) → length m.pstate ≡ 12 → length (report_bytes m) ≡ 940
unfolding report_bytes
length-report_bytes m twelve =
    let states = processes_bytes m.pstate in
    let manager = text_bytes 16 m.manage_ip ++ states in
    let name = text_bytes 32 m.vm_name ++ manager in
    let id = text_bytes 64 m.vm_id ++ name in
    omega (
      arith,
      twelve,
      length-append (u32_bytes m.vm_ipaddress) (u32_bytes m.vm_type ++ (u32_bytes m.pcount ++ id)),
      length-append (u32_bytes m.vm_type) (u32_bytes m.pcount ++ id),
      length-append (u32_bytes m.pcount) id,
      length-u32_bytes m.vm_ipaddress,
      length-u32_bytes m.vm_type,
      length-u32_bytes m.pcount,
      length-append (text_bytes 64 m.vm_id) name,
      length-text_bytes 64 m.vm_id,
      length-append (text_bytes 32 m.vm_name) manager,
      length-text_bytes 32 m.vm_name,
      length-append (text_bytes 16 m.manage_ip) states,
      length-text_bytes 16 m.manage_ip,
      length-processes_bytes m.pstate,
    )

-- A header whose numbers fit their fields.
pub record IsHeader (h : TcpHeader) : Type 0 where
  pub tpkt : h.tpkt_hdr < 2 ^ 32
  pub system : h.system_id < 2 ^ 32
  pub type : h.msg_type < 2 ^ 16
  pub size : h.msg_size < 2 ^ 16

header_at-fields :
    (l : List ℕ) (a b c d : ℕ)
    → u32_at l ≡ a
    → u32_at (drop 4 l) ≡ b
    → u16_at (drop 8 l) ≡ c
    → u16_at (drop 10 l) ≡ d
    → header_at l ≡ record { tpkt_hdr = a; system_id = b; msg_type = c; msg_size = d }
unfolding header_at
header_at-fields l a b c d e f g h = rw (header_at, e, f, g, h) refl

-- The bytes of a header, with whatever behind them, are read back as the header.
pub header_at-header_bytes :
    (h : TcpHeader) (rest : List ℕ) → IsHeader h → header_at (header_bytes h ++ rest) ≡ h
unfolding header_bytes u32_bytes u16_bytes
header_at-header_bytes h rest v =
    let sizes = u16_bytes h.msg_size ++ rest in
    let types = u16_bytes h.msg_type ++ sizes in
    header_at-fields (header_bytes h ++ rest) h.tpkt_hdr h.system_id h.msg_type h.msg_size
      (u32_at-u32_bytes h.tpkt_hdr (u32_bytes h.system_id ++ types) v.tpkt)
      (u32_at-u32_bytes h.system_id types v.system) (u16_at-u16_bytes h.msg_type sizes v.type)
      (u16_at-u16_bytes h.msg_size rest v.size)
