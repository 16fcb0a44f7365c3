-- ===== src/Abi.antt =====
-- include/wapi/wapi.h: result codes, and 32- and 64-bit integers as the host reads them.
use wapi.Base.{ℕ, ◌-◌, ◌%◌, ◌^◌, ◌||◌, Bool, leb, ◌==◌}

-- An `int32_t` or `uint32_t` is its bit pattern, a number below 2 ^ 32.
abbrev pub u32_mod : ℕ
u32_mod = 2 ^ 32

abbrev pub u64_mod : ℕ
u64_mod = 2 ^ 64

abbrev pub u32 : ℕ → ℕ
u32 n = n % u32_mod

abbrev pub u64 : ℕ → ℕ
u64 n = n % u64_mod

-- `x < 0` and `x <= 0` for an `int32_t`.
abbrev pub is_neg : ℕ → Bool
is_neg x = leb (2 ^ 31) x

abbrev pub le_zero : ℕ → Bool
le_zero x = x == 0 || is_neg x

-- The pattern of the negative number `-n`.
abbrev pub minus : ℕ → ℕ
minus n = u32_mod - n

abbrev pub ok : ℕ
ok = 0

abbrev pub err_unknown : ℕ
err_unknown = minus 1

abbrev pub err_inval : ℕ
err_inval = minus 2

abbrev pub err_badf : ℕ
err_badf = minus 3

abbrev pub err_acces : ℕ
err_acces = minus 4

abbrev pub err_noent : ℕ
err_noent = minus 5

abbrev pub err_nospc : ℕ
err_nospc = minus 9

abbrev pub err_nomem : ℕ
err_nomem = minus 10

abbrev pub err_io : ℕ
err_io = minus 13

abbrev pub err_notcapable : ℕ
err_notcapable = minus 24

abbrev pub err_notsup : ℕ
err_notsup = minus 25

abbrev pub err_canceled : ℕ
err_canceled = minus 27

abbrev pub err_nosys : ℕ
err_nosys = minus 32

abbrev pub err_exist : ℕ
err_exist = minus 6

abbrev pub err_notdir : ℕ
err_notdir = minus 7

abbrev pub err_isdir : ℕ
err_isdir = minus 8

abbrev pub err_nametoolong : ℕ
err_nametoolong = minus 11

abbrev pub err_notempty : ℕ
err_notempty = minus 12

abbrev pub err_busy : ℕ
err_busy = minus 15

abbrev pub err_range : ℕ
err_range = minus 30
