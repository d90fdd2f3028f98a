-- ===== src/Util/Stamps.antt =====
-- The time stamps as numbers of fourteen digits.
use vnf_monitoring.Prelude.{
  ℕ, zero, suc, ◌+◌, ◌-◌, ◌*◌, ◌/◌, ◌%◌, ◌<◌, ◌≡◌, refl, sym, ap, ◌∙◌, true, List, [], ◌∷◌, ◌++◌,
  append_assoc, append-nil, ltb, length, pad, padded, value, arith,
}
use vnf_monitoring.Util.{Tm, get_time_stamp, init_insert_time}

-- The power of ten, in steps.
abbrev tens : ℕ → ℕ
tens zero = 1
tens (suc w) = 10 * tens w

value-digit : (acc n : ℕ) (l : List ℕ) → value acc ((48 + n % 10) ∷ l) ≡ value (acc * 10 + n % 10) l
unfolding value
value-digit acc n l =
    let same : 48 + n % 10 - 48 ≡ n % 10 = omega arith in ap (λ k. value (acc * 10 + k) l) same

value-pad :
    (w n acc : ℕ) (l : List ℕ) → n < tens w → value acc (pad w n ++ l) ≡ value (acc * tens w + n) l
unfolding pad
value-pad zero n acc l h = let same : acc ≡ acc * 1 + n = omega arith in ap (λ k. value k l) same
value-pad (suc w) n acc l h =
    let same : (acc * tens w + n / 10) * 10 + n % 10 ≡ acc * (10 * tens w) + n = grind arith in
    rw append_assoc (
      value-pad w (n / 10) acc ((48 + n % 10) ∷ l) (omega arith)
      ∙ value-digit (acc * tens w + n / 10) n l
      ∙ ap (λ k. value k l) same)

padded2 : (n : ℕ) → n < 100 → padded 2 n ≡ pad 2 n
unfolding padded
padded2 n h = let small : ltb n 100 ≡ true = ground arith in rw small refl

padded4 : (n : ℕ) → n < 10000 → padded 4 n ≡ pad 4 n
unfolding padded
padded4 n h = let small : ltb n 10000 ≡ true = ground arith in rw small refl

-- The ranges of the fields that `localtime_r` fills in, for the years up to 9999.
pub record InRange (t : Tm) : Type 0 where
  pub year : t.tm_year < 8100
  pub mon : t.tm_mon < 12
  pub mday : t.tm_mday < 32
  pub hour : t.tm_hour < 24
  pub min : t.tm_min < 60
  pub sec : t.tm_sec < 62

-- The time as one number: year, month, day, hour, minute and second in two digits each.
pub as_number : Tm → ℕ
as_number t =
    (((((t.tm_year + 1900) * 100 + (t.tm_mon + 1)) * 100 + t.tm_mday) * 100 + t.tm_hour) * 100
        + t.tm_min)
      * 100
    + t.tm_sec

plain_stamp : Tm → List ℕ
plain_stamp t =
    pad 4 (t.tm_year + 1900)
    ++ (pad 2 (t.tm_mon + 1)
        ++ (pad 2 t.tm_mday ++ (pad 2 t.tm_hour ++ (pad 2 t.tm_min ++ pad 2 t.tm_sec))))

get_time_stamp-plain : (t : Tm) → InRange t → get_time_stamp t ≡ plain_stamp t
unfolding get_time_stamp plain_stamp
get_time_stamp-plain t r =
    rw
      (
        padded4 (t.tm_year + 1900) (omega arith),
        padded2 (t.tm_mon + 1) (omega arith),
        padded2 t.tm_mday (omega arith),
        padded2 t.tm_hour (omega arith),
        padded2 t.tm_min (omega arith),
        padded2 t.tm_sec (omega arith),
      )
      refl

length-plain_stamp : (t : Tm) → length (plain_stamp t) ≡ 14
unfolding plain_stamp pad
length-plain_stamp t = refl

value-last : (n acc : ℕ) → n < 100 → value acc (pad 2 n) ≡ value (acc * 100 + n) []
value-last n acc h = ap (value acc) (sym (append-nil (pad 2 n))) ∙ value-pad 2 n acc [] h

value-plain_stamp : (t : Tm) → InRange t → value 0 (plain_stamp t) ≡ as_number t
unfolding plain_stamp as_number value
value-plain_stamp t r =
    let y = t.tm_year + 1900 in
    let m = t.tm_mon + 1 in
    let sec = pad 2 t.tm_sec in
    let min = pad 2 t.tm_min ++ sec in
    let hour = pad 2 t.tm_hour ++ min in
    let mday = pad 2 t.tm_mday ++ hour in
    let first : 0 * tens 4 + y ≡ y = omega arith in
    value-pad 4 y 0 (pad 2 m ++ mday) (omega arith)
    ∙ ap (λ k. value k (pad 2 m ++ mday)) first
    ∙ value-pad 2 m y mday (omega arith)
    ∙ value-pad 2 t.tm_mday (y * 100 + m) hour (omega arith)
    ∙ value-pad 2 t.tm_hour ((y * 100 + m) * 100 + t.tm_mday) min (omega arith)
    ∙ value-pad 2 t.tm_min (((y * 100 + m) * 100 + t.tm_mday) * 100 + t.tm_hour) sec (omega arith)
    ∙ value-last t.tm_sec ((((y * 100 + m) * 100 + t.tm_mday) * 100 + t.tm_hour) * 100 + t.tm_min)
        (omega arith)

-- A time stamp has 14 digits, so that it fits with the byte that ends it into the 16 bytes of its
-- buffer, and read as a number it is the time, with the year in front: the order of the stamps is
-- that of the times.
pub get_time_stamp_lem :
    (t : Tm)
    → InRange t
    → (length (get_time_stamp t) ≡ 14) × (value 0 (get_time_stamp t) ≡ as_number t)
get_time_stamp_lem t r = rw (get_time_stamp-plain t r) (length-plain_stamp t, value-plain_stamp t r)

-- The two texts of `init_insertTime` are the time with the seconds, and with the seconds and the
-- minutes, taken down to a multiple of five: 0 to 4 seconds, and 0 to 4 minutes, before the time.
pub init_insert_time_lem :
    (t : Tm)
    → InRange t
    → (value 0 (init_insert_time t).0 + t.tm_sec % 5 ≡ as_number t)
      × (value 0 (init_insert_time t).1 + t.tm_sec % 5 + t.tm_min % 5 * 100 ≡ as_number t)
unfolding init_insert_time as_number
init_insert_time_lem t r =
    let t1 = record t { tm_sec = t.tm_sec - t.tm_sec % 5 } in
    let t2 = record t1 { tm_min = t.tm_min - t.tm_min % 5 } in
    let r1 : InRange t1 = record {
      year = r.year;
      mon = r.mon;
      mday = r.mday;
      hour = r.hour;
      min = r.min;
      sec = omega (arith, r.sec);
    } in
    let r2 : InRange t2 = record {
      year = r.year;
      mon = r.mon;
      mday = r.mday;
      hour = r.hour;
      min = omega (arith, r.min);
      sec = omega (arith, r.sec);
    } in
    (omega (arith, (get_time_stamp_lem t1 r1).1), omega (arith, (get_time_stamp_lem t2 r2).1))
