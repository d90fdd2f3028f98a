-- ===== src/Util/Tests.antt =====
-- The utilities on concrete values.
use vnf_monitoring.Prelude.{
  ℕ, ◌+◌, ◌*◌, ◌/◌, ◌%◌, ◌^◌, ◌<◌, ◌≡◌, refl, ◌↔◌, some, [], ◌∷◌, length, codes, value, digits,
  padded, arith,
}
use vnf_monitoring.Prelude.Int.{negsuc}
use vnf_monitoring.Util.{
  Tm, find_day_of_week, get_time_stamp, init_insert_time, addr2str, nbo_htonll, dup_check,
  dupcheckbyname,
}
use vnf_monitoring.Util.Weekday.{weekday, julian_day, find_day_of_week_iff}
use vnf_monitoring.Util.Stamps.{InRange, as_number, get_time_stamp_lem, init_insert_time_lem}
use vnf_monitoring.Util.Addresses.{read_dotted, addr2str_lem, nbo_htonll-nbo_htonll}

-- 11 August 2014, a Monday, 10:07:33.
abbrev monday : Tm
monday = record { tm_year = 114; tm_mon = 7; tm_mday = 11; tm_hour = 10; tm_min = 7; tm_sec = 33 }

monday_is_1 : find_day_of_week monday ≡ 1
unfolding find_day_of_week
monday_is_1 = refl

-- 23 April 2038, a Friday, is taken for a Wednesday.
abbrev too_late : Tm
too_late = record { tm_year = 138; tm_mon = 3; tm_mday = 23; tm_hour = 0; tm_min = 0; tm_sec = 0 }

too_late_is_3 : find_day_of_week too_late ≡ 3
unfolding find_day_of_week
too_late_is_3 = refl

find_day_of_week_iff_example :
    (find_day_of_week too_late ≡ weekday too_late) ↔ (julian_day too_late < 65536)
find_day_of_week_iff_example =
    find_day_of_week_iff too_late (omega arith) (omega arith) (omega arith) (omega arith)

monday-InRange : InRange monday
monday-InRange = record {
  year = omega arith;
  mon = omega arith;
  mday = omega arith;
  hour = omega arith;
  min = omega arith;
  sec = omega arith;
}

stamp : get_time_stamp monday ≡ codes "20140811100733"
unfolding get_time_stamp padded codes
stamp = refl

stamp_number :
    (length (get_time_stamp monday) ≡ 14) × (value 0 (get_time_stamp monday) ≡ as_number monday)
stamp_number = get_time_stamp_lem monday monday-InRange

init_insert_time_lem_example :
    (value 0 (init_insert_time monday).0 + 33 % 5 ≡ as_number monday)
    × (value 0 (init_insert_time monday).1 + 33 % 5 + 7 % 5 * 100 ≡ as_number monday)
init_insert_time_lem_example = init_insert_time_lem monday monday-InRange

address : addr2str 0xc0a80107 ≡ codes "192.168.1.7"
unfolding addr2str digits codes
address = refl

addr2str_lem_example :
    (read_dotted 0 0 (addr2str 0xc0a80107) ≡ 0xc0a80107) × (length (addr2str 0xc0a80107) < 32)
addr2str_lem_example = addr2str_lem 0xc0a80107 (omega arith)

-- The four bytes of a number in the other order.
abbrev reversed : ℕ → ℕ
reversed y = y % 256 * 2 ^ 24 + y / 256 % 256 * 65536 + y / 65536 % 256 * 256 + y / 2 ^ 24 % 256

reversed-lt : (y : ℕ) → y < 2 ^ 32 → reversed y < 2 ^ 32
reversed-lt y h = omega arith

reversed_twice : (y : ℕ) → y < 2 ^ 32 → reversed (reversed y) ≡ y
reversed_twice y h = omega arith

there_and_back : nbo_htonll reversed (nbo_htonll reversed 0x0102030405060708) ≡ 0x0102030405060708
there_and_back =
    nbo_htonll-nbo_htonll reversed reversed 0x0102030405060708 reversed-lt reversed_twice
      (omega arith)

all_bytes_reversed : nbo_htonll reversed 0x0102030405060708 ≡ 0x0807060504030201
unfolding nbo_htonll
all_bytes_reversed = refl

-- Where `htonl` changes nothing, the halves are exchanged.
halves_exchanged : nbo_htonll (λ y. y) 0x0102030405060708 ≡ 0x0506070801020304
unfolding nbo_htonll
halves_exchanged = refl

runs_twice : dupcheckbyname 7 (some (7 ∷ 9 ∷ [])) ≡ negsuc 0
unfolding dupcheckbyname dup_check
runs_twice = refl
