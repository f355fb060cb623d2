-- ===== src/Cron/Date.antt =====
-- libwzd-core/wzd_crontab.c: cronjob_find_next_exec_date. A time_t is signed: the number n stands for the
-- time n - 2 ^ 63, so the times keep their order, 2 ^ 63 is the time 0 and 2 ^ 63 - 1 is the -1 with which
-- mktime fails.
use wzdftpd.Base.{
  ℕ, zero, suc, ◌+◌, ◌-◌, ◌*◌, ◌%◌, ◌^◌, Bool, true, false, not, [], ◌∷◌, Bytes, codes,
  if◌then◌else◌, ◌==◌, ltb, leb, is_digit, skip_spaces, str_eq,
}

-- A time_t, and the time 0
abbrev pub Time : Type 0
Time = ℕ

abbrev pub time_zero : Time
time_zero = 2 ^ 63

pub data ℤ : Type 0 where
  pos : ℕ → ℤ
  negsuc : ℕ → ℤ

abbrev pub pred : ℤ → ℤ
pred (pos zero) = negsuc 0
pred (pos (suc n)) = pos n
pred (negsuc n) = negsuc (suc n)

abbrev pub next : ℤ → ℤ
next (pos n) = pos (suc n)
next (negsuc zero) = pos 0
next (negsuc (suc n)) = negsuc n

abbrev pub is_positive : ℤ → Bool
is_positive (pos n) = ltb 0 n
is_positive (negsuc n) = false

abbrev pub lez : ℤ → ℤ → Bool
lez (pos a) (pos b) = leb a b
lez (pos a) (negsuc b) = false
lez (negsuc a) (pos b) = true
lez (negsuc a) (negsuc b) = leb b a

-- `n == -1`, the value that stands for a star
abbrev pub is_any : ℤ → Bool
is_any (negsuc zero) = true
is_any _ = false

-- The fields of struct tm that the code writes.
pub record Tm : Type 0 where
  pub tm_sec : ℤ
  pub tm_min : ℤ
  pub tm_hour : ℤ
  pub tm_mday : ℤ
  pub tm_mon : ℤ
  pub tm_year : ℤ

-- The digits at the front of a text, as a number.
unfoldable pub digits : ℕ → Bytes → ℕ
digits n [] = n
digits n (c ∷ s) = if is_digit c then digits (n * 10 + (c - b'0')) s else n

-- An `int` of two's complement: the value modulo 2 ^ 32.
abbrev pub int_of : ℕ → ℤ
int_of m = if ltb m (2 ^ 31) then pos m else negsuc (2 ^ 32 - m - 1)

abbrev pub min : ℕ → ℕ → ℕ
min a b = if leb a b then a else b

-- `strtol(text, NULL, 10)`, with its limits of 64 bits, stored in an `int`
abbrev pub signed_digits : Bytes → ℤ
signed_digits [] = pos 0
signed_digits (c ∷ s) =
    if c == b'-'
    then int_of ((2 ^ 64 - min (digits 0 s) (2 ^ 63)) % 2 ^ 32)
    else int_of (min (digits 0 (if c == b'+' then s else c ∷ s)) (2 ^ 63 - 1) % 2 ^ 32)

unfoldable pub strtol : Bytes → ℤ
strtol text = signed_digits (skip_spaces text)

-- `text[0] != '*' ? strtol(text) : -1`
unfoldable pub number : Bytes → ℤ
number [] = strtol []
number (c ∷ s) = if c == b'*' then negsuc 0 else strtol (c ∷ s)

-- The month counts from 0 in struct tm.
unfoldable pub month_number : Bytes → ℤ
month_number [] = pred (strtol [])
month_number (c ∷ s) = if c == b'*' then negsuc 0 else pred (strtol (c ∷ s))

-- `if (n > 0) field = n; else field = 0;`
abbrev pub or_zero : ℤ → ℤ
or_zero n = if is_positive n then n else pos 0

-- The fields after the branch for the first of month, day, hour and minute that is not a star.
unfoldable pub next_tm : ℤ → ℤ → ℤ → ℤ → Tm → Tm
next_tm minutes hours day month t =
    if not (is_any month)
    then record {
      tm_sec = pos 0;
      tm_min = or_zero minutes;
      tm_hour = or_zero hours;
      tm_mday = or_zero day;
      tm_mon = month;
      tm_year = if lez month t.tm_mon then next t.tm_year else t.tm_year;
    }
    else (if not (is_any day)
        then record {
          tm_sec = pos 0;
          tm_min = or_zero minutes;
          tm_hour = or_zero hours;
          tm_mday = day;
          tm_mon = if lez day t.tm_mday then next t.tm_mon else t.tm_mon;
          tm_year = t.tm_year;
        }
        else (if not (is_any hours)
            then record {
              tm_sec = pos 0;
              tm_min = or_zero minutes;
              tm_hour = hours;
              tm_mday = if lez hours t.tm_hour then next t.tm_mday else t.tm_mday;
              tm_mon = t.tm_mon;
              tm_year = t.tm_year;
            }
            else (if not (is_any minutes)
                then record {
                  tm_sec = pos 0;
                  tm_min = minutes;
                  tm_hour = if lez minutes t.tm_min then next t.tm_hour else t.tm_hour;
                  tm_mday = t.tm_mday;
                  tm_mon = t.tm_mon;
                  tm_year = t.tm_year;
                }
                else record {
                  tm_sec = t.tm_sec;
                  tm_min = next t.tm_min;
                  tm_hour = t.tm_hour;
                  tm_mday = t.tm_mday;
                  tm_mon = t.tm_mon;
                  tm_year = t.tm_year;
                })))

module _ (localtime : Time → Tm) (mktime : Tm → Time) where
  -- The day of the week is not read.
  unfoldable pub cronjob_find_next_exec_date : Time → Bytes → Bytes → Bytes → Bytes → Bytes → Time
  cronjob_find_next_exec_date start minutes hours day_of_month month day_of_week =
      if str_eq minutes (codes "ONCE")
      then time_zero
      else mktime (
          next_tm (number minutes) (number hours) (number day_of_month) (month_number month)
            (localtime start))
