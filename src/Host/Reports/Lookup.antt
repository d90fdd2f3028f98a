-- ===== src/Host/Reports/Lookup.antt =====
-- What a report leaves in `stateinfo`, seen as a map from addresses.
use vnf_monitoring.Prelude.{
  ℕ, ◌≡◌, refl, ◌≢◌, ◌%◌, ◌^◌, ◌⊎◌, inl, inr, Bool, Bool-cases, Option, none, some, Option-cases,
  List, [], ◌∷◌, ◌∙◌, modify_first, find_index, find, find-find_index, find-modify_first,
  find-modify_first_ne, length, length-modify_first, arith,
}
use vnf_monitoring.Host.State.{StateInfo}
use vnf_monitoring.Host.Links.{has_ip}
use vnf_monitoring.Host.Reports.{VmProcStateMsg, update_entry, fill_entry, store_report}

-- The entry of an address.
abbrev pub lookup : ℕ → List StateInfo → Option StateInfo
lookup ip l = find (has_ip ip) l

found-index :
    (p : StateInfo → Bool) (l : List StateInfo) (t : StateInfo)
    → find p l ≡ some t
    → (i : ℕ) × (find_index p l ≡ some i)
found-index p l t e = elim (Option-cases (find_index p l)) [
  | inl h ↦ ground (arith, h, e, find-find_index p l)
  | inr (i, h) ↦ (i, h)
]

no-index : (p : StateInfo → Bool) (l : List StateInfo) → find p l ≡ none → find_index p l ≡ none
no-index p l e = ground (arith, e, find-find_index p l)

-- The entry that `find` stops at passes the test, so filling it makes it the address's.
filled-found :
    (p : StateInfo → Bool) (s : VmProcStateMsg) (l : List StateInfo) (t : StateInfo)
    → lookup s.vm_ipaddress l ≡ none
    → find p l ≡ some t
    → lookup s.vm_ipaddress (modify_first p (fill_entry s) l) ≡ some (fill_entry s t)
filled-found p s [] t miss e = ground (arith, e)
filled-found p s (u ∷ l) t miss e = elim (Bool-cases (p u)) [
  | inl h ↦ let same : u ≡ t = ground (arith, e, h) in ground (arith, h, same)
  | inr h ↦
      let rest = filled-found p s l t (ground (arith, miss)) (ground (arith, e, h)) in
      ground (arith, h, rest, miss)
]

other-update :
    (s : VmProcStateMsg) (l : List StateInfo) (jp : ℕ)
    → jp ≢ s.vm_ipaddress
    → lookup jp (modify_first (has_ip s.vm_ipaddress) (update_entry s) l) ≡ lookup jp l
other-update s l jp ne =
    find-modify_first_ne (has_ip s.vm_ipaddress) (update_entry s) (has_ip jp) (λ t h. ground arith)
      (λ t h. ground arith) l

other-fill :
    (s : VmProcStateMsg) (l : List StateInfo) (jp : ℕ)
    → jp ≢ s.vm_ipaddress
    → jp ≢ 0
    → lookup jp (modify_first (has_ip 0) (fill_entry s) l) ≡ lookup jp l
other-fill s l jp ne ne0 =
    find-modify_first_ne (has_ip 0) (fill_entry s) (has_ip jp) (λ t h. ground arith)
      (λ t h. ground arith) l

-- The three outcomes.
store_report-known :
    (s : VmProcStateMsg) (l : List StateInfo) (t : StateInfo)
    → lookup s.vm_ipaddress l ≡ some t
    → (i : ℕ) × (store_report s l
        ≡ (modify_first (has_ip s.vm_ipaddress) (update_entry s) l, some i))
unfolding store_report
store_report-known s l t e =
    let (i, h) = found-index (has_ip s.vm_ipaddress) l t e in (i, rw (store_report, h) refl)

store_report-new :
    (s : VmProcStateMsg) (l : List StateInfo) (t : StateInfo)
    → lookup s.vm_ipaddress l ≡ none
    → lookup 0 l ≡ some t
    → (i : ℕ) × (store_report s l ≡ (modify_first (has_ip 0) (fill_entry s) l, some i))
unfolding store_report
store_report-new s l t miss e =
    let (i, h) = found-index (has_ip 0) l t e in
    (i, rw (store_report, no-index (has_ip s.vm_ipaddress) l miss, h) refl)

store_report-full :
    (s : VmProcStateMsg) (l : List StateInfo)
    → lookup s.vm_ipaddress l ≡ none
    → lookup 0 l ≡ none
    → store_report s l ≡ (l, none)
unfolding store_report
store_report-full s l miss full =
    rw (store_report, no-index (has_ip s.vm_ipaddress) l miss, no-index (has_ip 0) l full) refl

-- The report of an address that has an entry updates that entry, and the entries of the other
-- addresses stay.
pub store_report-update :
    (s : VmProcStateMsg) (l : List StateInfo) (t : StateInfo)
    → lookup s.vm_ipaddress l ≡ some t
    → (l2 : List StateInfo) × (i : ℕ) × (store_report s l ≡ (l2, some i))
      × (lookup s.vm_ipaddress l2 ≡ some (update_entry s t))
      × ((jp : ℕ) → jp ≢ s.vm_ipaddress → lookup jp l2 ≡ lookup jp l)
      × (length l2 ≡ length l)
store_report-update s l t e =
    let (i, h) = store_report-known s l t e in
    (
      modify_first (has_ip s.vm_ipaddress) (update_entry s) l,
      i,
      h,
      find-modify_first (has_ip s.vm_ipaddress) (update_entry s) (λ u k. k) l ∙ rw e refl,
      other-update s l,
      length-modify_first (has_ip s.vm_ipaddress) (update_entry s) l,
    )

-- The report of an address without an entry fills the first free entry, and the entries of the other
-- addresses stay; without a free entry it is dropped and -1 returned.
pub store_report-insert :
    (s : VmProcStateMsg) (l : List StateInfo)
    → lookup s.vm_ipaddress l ≡ none
    → ((t : StateInfo)
        → lookup 0 l ≡ some t
        → (l2 : List StateInfo) × (i : ℕ) × (store_report s l ≡ (l2, some i))
          × (lookup s.vm_ipaddress l2 ≡ some (fill_entry s t))
          × ((jp : ℕ) → jp ≢ s.vm_ipaddress → jp ≢ 0 → lookup jp l2 ≡ lookup jp l)
          × (length l2 ≡ length l))
      × (lookup 0 l ≡ none → store_report s l ≡ (l, none))
store_report-insert s l miss = (
  λ t e.
      let (i, h) = store_report-new s l t miss e in
      (
        modify_first (has_ip 0) (fill_entry s) l,
        i,
        h,
        filled-found (has_ip 0) s l t miss e,
        other-fill s l,
        length-modify_first (has_ip 0) (fill_entry s) l,
      ),
  store_report-full s l miss,
)

-- What an entry holds of a report: everything but the address, the two numbers cut to 16 bits.
abbrev pub Holds : VmProcStateMsg → StateInfo → Type 0
Holds s t =
    (t.pstate ≡ s.pstate)
    × (t.vm_type ≡ s.vm_type % 2 ^ 16)
    × (t.pcount ≡ s.pcount % 2 ^ 16)
    × (t.vm_id ≡ s.vm_id)
    × (t.vm_name ≡ s.vm_name)
    × (t.manage_ip ≡ s.manage_ip)

-- The table `l2` after a report, from the table `l`: an address that has an entry, or a free one,
-- has an entry afterwards that holds the report; where there is neither, the table is the same; and
-- the entries of other addresses stay.
abbrev pub IsStored : VmProcStateMsg → List StateInfo → List StateInfo → Type 0
IsStored s l l2 =
    ((t : StateInfo)
      → (lookup s.vm_ipaddress l ≡ some t)
        ⊎ ((lookup s.vm_ipaddress l ≡ none) × (lookup 0 l ≡ some t))
      → (t2 : StateInfo) × (lookup s.vm_ipaddress l2 ≡ some t2) × Holds s t2)
    × (lookup s.vm_ipaddress l ≡ none → lookup 0 l ≡ none → l2 ≡ l)
    × ((jp : ℕ) → jp ≢ s.vm_ipaddress → jp ≢ 0 → lookup jp l2 ≡ lookup jp l)
    × (length l2 ≡ length l)

pub store_report-IsStored :
    (s : VmProcStateMsg) (l : List StateInfo) → IsStored s l (store_report s l).0
store_report-IsStored s l = elim (Option-cases (lookup s.vm_ipaddress l)) [
  | inr (t, e) ↦
      let (l2, i, run, there, others, len) = store_report-update s l t e in
      rw run (
        (λ u h. (update_entry s t, there, (refl, refl, refl, refl, refl, refl))),
        (λ miss full. absurd (ground (arith, miss, e))),
        (λ jp ne ne0. others jp ne),
        len,
      )
  | inl miss ↦
      let (new, full) = store_report-insert s l miss in
      elim (Option-cases (lookup 0 l)) [
        | inr (t, e) ↦
            let (l2, i, run, there, others, len) = new t e in
            rw run (
              (λ u h. (fill_entry s t, there, (refl, refl, refl, refl, refl, refl))),
              (λ miss2 full2. absurd (ground (arith, full2, e))),
              others,
              len,
            )
        | inl none_free ↦ rw (full none_free) (
          (λ u h. elim h [
            | inl k ↦ absurd (ground (arith, k, miss))
            | inr (k, free) ↦ absurd (ground (arith, free, none_free))
          ]),
          (λ m f. refl),
          (λ jp ne ne0. refl),
          refl,
        )
      ]
]
