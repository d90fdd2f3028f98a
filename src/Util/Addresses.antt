-- ===== src/Util/Addresses.antt =====
-- The texts of addresses, and numbers in network order.
use vnf_monitoring.Prelude.{
  ℕ, zero, suc, ◌+◌, ◌-◌, ◌*◌, ◌/◌, ◌%◌, ◌^◌, ◌≤◌, ◌<◌, ◌≡◌, refl, sym, ap, ◌∙◌, inl, inr, true,
  false, List, [], ◌∷◌, ◌++◌, append_assoc, append-nil, ◌==◌, ltb, Bool-cases, length,
  length-append, digits, length-digits, arith,
}
use vnf_monitoring.Util.{octet, addr2str, nbo_htonll}

-- A reader of dotted texts: the parts read so far, and the part that is being read.
pub read_dotted : ℕ → ℕ → List ℕ → ℕ
read_dotted total part [] = total * 256 + part
read_dotted total part (c ∷ l) = elim (c == b'.') [
  | true ↦ read_dotted (total * 256 + part) 0 l
  | false ↦ read_dotted total (part * 10 + (c - 48)) l
]

-- A digit goes to the part that is being read.
read_dotted-digit :
    (total part n : ℕ) (l : List ℕ)
    → read_dotted total part ((48 + n % 10) ∷ l) ≡ read_dotted total (part * 10 + n % 10) l
unfolding read_dotted
read_dotted-digit total part n l =
    let no_dot : ((48 + n % 10) == b'.') ≡ false = ground arith in
    let val : 48 + n % 10 - 48 ≡ n % 10 = omega arith in rw (read_dotted, no_dot, val) refl

-- The numbers of at most `f` digits are those below.
abbrev limit : ℕ → ℕ
limit zero = 1
limit (suc f) = 10 * limit f

read_dotted-digits :
    (f n total : ℕ) (l : List ℕ)
    → n < limit (suc f)
    → read_dotted total 0 (digits (suc f) n ++ l) ≡ read_dotted total n l
unfolding digits
read_dotted-digits zero n total l h =
    let small : ltb n 10 ≡ true = ground arith in
    let same : 0 * 10 + n % 10 ≡ n = omega arith in
    rw (digits, small) (read_dotted-digit total 0 n l ∙ ap (λ k. read_dotted total k l) same)
read_dotted-digits (suc f) n total l h = elim (Bool-cases (ltb n 10)) [
  | inl small ↦
      let same : 0 * 10 + n % 10 ≡ n = ground arith in
      rw (digits, small) (read_dotted-digit total 0 n l ∙ ap (λ k. read_dotted total k l) same)
  | inr large ↦
      let same : n / 10 * 10 + n % 10 ≡ n = omega arith in
      rw (digits, large, append_assoc)
        (read_dotted-digits f (n / 10) total ((48 + n % 10) ∷ l) (omega arith)
          ∙ read_dotted-digit total (n / 10) n l
          ∙ ap (λ k. read_dotted total k l) same)
]

-- A part of an address, with the dot behind it.
read_dotted-octet :
    (n total : ℕ) (l : List ℕ)
    → n < 256
    → read_dotted total 0 (digits 3 n ++ (b'.' ∷ l)) ≡ read_dotted (total * 256 + n) 0 l
unfolding read_dotted
read_dotted-octet n total l h = read_dotted-digits 2 n total (b'.' ∷ l) (omega arith)

read_dotted-last : (n total : ℕ) → n < 256 → read_dotted total 0 (digits 3 n) ≡ total * 256 + n
unfolding read_dotted
read_dotted-last n total h =
    ap (read_dotted total 0) (sym (append-nil (digits 3 n)))
    ∙ read_dotted-digits 2 n total [] (omega arith)

length-octet : (n : ℕ) (l : List ℕ) → length (digits 3 n ++ (b'.' ∷ l)) ≤ 4 + length l
length-octet n l = omega (arith, length-append (digits 3 n) (b'.' ∷ l), length-digits 3 n)

-- The text of an address of 32 bits reads back as the address, and fits with the byte that ends it
-- into the 32 bytes of its buffer.
pub addr2str_lem :
    (addr : ℕ)
    → addr < 2 ^ 32
    → (read_dotted 0 0 (addr2str addr) ≡ addr) × (length (addr2str addr) < 32)
unfolding addr2str
addr2str_lem addr h =
    let a = octet addr 3 in
    let b = octet addr 2 in
    let c = octet addr 1 in
    let d = octet addr 0 in
    (
      read_dotted-octet a 0 (digits 3 b ++ (b'.' ∷ (digits 3 c ++ (b'.' ∷ digits 3 d))))
            (omega arith)
          ∙ read_dotted-octet b (0 * 256 + a) (digits 3 c ++ (b'.' ∷ digits 3 d)) (omega arith)
          ∙ read_dotted-octet c ((0 * 256 + a) * 256 + b) (digits 3 d) (omega arith)
          ∙ read_dotted-last d (((0 * 256 + a) * 256 + b) * 256 + c) (omega arith)
          ∙ omega arith,
      omega (
        arith,
        length-octet a (digits 3 b ++ (b'.' ∷ (digits 3 c ++ (b'.' ∷ digits 3 d)))),
        length-octet b (digits 3 c ++ (b'.' ∷ digits 3 d)),
        length-octet c (digits 3 d),
        length-digits 3 d,
      ),
    )

-- Any two functions that undo each other on 32 bits make two that do so on 64 bits.
pub nbo_htonll-nbo_htonll :
    (htonl ntohl : ℕ → ℕ) (x : ℕ)
    → ((y : ℕ) → y < 2 ^ 32 → htonl y < 2 ^ 32)
    → ((y : ℕ) → y < 2 ^ 32 → ntohl (htonl y) ≡ y)
    → x < 2 ^ 64
    → nbo_htonll ntohl (nbo_htonll htonl x) ≡ x
unfolding nbo_htonll
nbo_htonll-nbo_htonll htonl ntohl x small back h =
    let lo = x % 2 ^ 32 in
    let hi = x / 2 ^ 32 % 2 ^ 32 in
    let a = small lo (omega arith) in
    let b = small hi (omega arith) in
    let swapped = (htonl lo * 2 ^ 32 + htonl hi) % 2 ^ 64 in
    let low : swapped % 2 ^ 32 ≡ htonl hi = omega (arith, a, b) in
    let high : swapped / 2 ^ 32 % 2 ^ 32 ≡ htonl lo = omega (arith, a, b) in
    rw (low, high, back hi (omega arith), back lo (omega arith)) (omega arith)
