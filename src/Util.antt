-- ===== src/Util.antt =====
-- The utilities of src/CMLB/src/kutil.c that compute: texts of addresses and times, the day of the
-- week, the byte order of 64-bit numbers, and the test for a process that runs twice. The clock, the
-- byte order and the process list are arguments.
pub mod Weekday
pub mod Stamps
pub mod Addresses
mod Tests
use vnf_monitoring.Prelude.{
  ℕ, zero, suc, ◌+◌, ◌-◌, ◌*◌, ◌/◌, ◌%◌, ◌^◌, Bool, true, false, ◌||◌, Option, none, some, List, [],
  ◌∷◌, ◌++◌, ◌==◌, if◌then◌else◌, digits, padded,
}
use vnf_monitoring.Prelude.Int.{ℤ, pos, negsuc}

-- `struct tm`, with the fields that the functions read; the year counts from 1900, the month from 0.
pub record Tm : Type 0 where
  pub tm_year : ℕ
  pub tm_mon : ℕ
  pub tm_mday : ℕ
  pub tm_hour : ℕ
  pub tm_min : ℕ
  pub tm_sec : ℕ

abbrev pub is_early : ℕ → ℕ
is_early mon = if (mon == 1) || (mon == 2) then 1 else 0

-- `usMJD`, an unsigned short, for the year, the month from 1 and the day. The products with 365.25
-- and 30.6001 are cut to whole numbers before they are added.
unfoldable pub mjd : ℕ → ℕ → ℕ → ℕ
mjd year mon day =
    let l = is_early mon in
    (14956
      + day
      + (year - 1900 - l) * 36525 / 100 % 65536
      + (mon + 1 + l * 12) * 306001 / 10000 % 65536)
    % 65536

-- 1 for Monday, 7 for Sunday.
unfoldable pub find_day_of_week : Tm → ℕ
unfolding mjd
find_day_of_week t = (mjd (t.tm_year + 1900) (t.tm_mon + 1) t.tm_mday + 2) % 7 + 1

unfoldable pub get_time_stamp : Tm → List ℕ
get_time_stamp t =
    padded 4 (t.tm_year + 1900)
    ++ (padded 2 (t.tm_mon + 1)
        ++ (padded 2 t.tm_mday ++ (padded 2 t.tm_hour ++ (padded 2 t.tm_min ++ padded 2 t.tm_sec))))

-- `init_insertTime`, where both texts are asked for: the second is rounded first.
pub init_insert_time : Tm → List ℕ × List ℕ
init_insert_time t =
    let t1 = record t { tm_sec = t.tm_sec - t.tm_sec % 5 } in
    let t2 = record t1 { tm_min = t.tm_min - t.tm_min % 5 } in
    (get_time_stamp t1, get_time_stamp t2)

-- `Get1MinTimeStamp`: the text, and the minute that is returned.
pub get1min_time_stamp : Tm → List ℕ × ℕ
get1min_time_stamp t = (get_time_stamp (record t { tm_sec = 0 }), t.tm_min)

-- The byte number `i` of an address, from the lowest.
abbrev pub octet : ℕ → ℕ → ℕ
octet addr i = addr / 256 ^ i % 256

unfoldable pub addr2str : ℕ → List ℕ
addr2str addr =
    digits 3 (octet addr 3)
    ++ (b'.'
        ∷ (digits 3 (octet addr 2)
            ++ (b'.' ∷ (digits 3 (octet addr 1) ++ (b'.' ∷ digits 3 (octet addr 0))))))

-- `htonl` takes the low 32 bits of its argument; the sum is one of 64 bits.
module _ (htonl : ℕ → ℕ) where
  pub nbo_htonll : ℕ → ℕ
  nbo_htonll x = (htonl (x % 2 ^ 32) * 2 ^ 32 + htonl (x / 2 ^ 32 % 2 ^ 32)) % 2 ^ 64

-- `dupcheckbyname` from the process ids that the pipe lists, up to the first that is no number.
pub dup_check : ℕ → List ℕ → ℤ
dup_check own [] = pos 0
dup_check own (pid ∷ l) = if pid == own then dup_check own l else negsuc 0

-- `none` for a pipe that cannot be opened.
pub dupcheckbyname : ℕ → Option (List ℕ) → ℤ
dupcheckbyname own none = negsuc 0
dupcheckbyname own (some pids) = dup_check own pids
