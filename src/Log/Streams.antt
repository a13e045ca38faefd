-- ===== src/Log/Streams.antt =====
-- Where the lines of Server/log.c go, and what stands before a message: `log_init`, `log_info`,
-- `log_error` and the date.
use server_simple.Base.{
  ℕ, ◌+◌, ◌%◌, ◌≤◌, ◌<◌, Bool, true, false, Option, none, some, List, ◌∷◌, ◌++◌, ltb, ◌==◌,
  if◌then◌else◌, if-cases, length, length-append, codes, arith,
}
use server_simple.Notify.{to_string}
use server_simple.Notify.Database.Decimal.{length-to_string}
use server_simple.Log.{Standard, Logged, log}

-- `struct tm`: `tm_year` counts from 1900, and `tm_mon` from 0.
pub record Tm : Type 0 where
  pub tm_year : ℕ
  pub tm_mon : ℕ
  pub tm_mday : ℕ
  pub tm_hour : ℕ
  pub tm_min : ℕ
  pub tm_sec : ℕ

-- `%02d`
pub two_digits : ℕ → List ℕ
two_digits n = if ltb n 10 then 48 ∷ to_string n else to_string n

-- The `sprintf` into `buff_date`.
unfoldable pub date : Tm → List ℕ → List ℕ
unfolding two_digits
date bd_time level_tag =
    codes "["
    ++ (two_digits (bd_time.tm_year % 100)
        ++ (codes "/"
            ++ (two_digits (bd_time.tm_mon + 1)
                ++ (codes "/"
                    ++ (two_digits bd_time.tm_mday
                        ++ (codes " "
                            ++ (two_digits bd_time.tm_hour
                                ++ (codes ":"
                                    ++ (two_digits bd_time.tm_min
                                        ++ (codes ":"
                                            ++ (two_digits bd_time.tm_sec
                                                ++ (codes "] ["
                                                    ++ (level_tag ++ codes "] ")))))))))))))

-- What `FILE *` a device has: stdout, or a file by its name, opened to append or anew.
pub data File : Type 0 where
  stdout : File
  opened : List ℕ → Bool → File

-- The two devices; `none` is NULL.
pub record Devices : Type 0 where
  pub logout : Option File
  pub error_log : Option File

abbrev pub log_file_error : List ℕ
log_file_error = codes "/tmp/log_server_error"

abbrev pub log_file_output : List ℕ
log_file_output = codes "/tmp/log_output"

-- `DBUGOpenFile`; `opens` is whether `fopen` succeeds.
abbrev pub open_file : (List ℕ → Bool) → List ℕ → Bool → Option File
open_file opens name append = if opens name then some (opened name append) else none

-- `log_init` of the server, by `debug_opntion`; both devices are NULL before. The client's differs in
-- opening the first file to append.
unfoldable pub log_init : (List ℕ → Bool) → ℕ → Devices
log_init opens debug_opntion =
    if debug_opntion == 0
    then record { logout = none; error_log = open_file opens log_file_error false }
    else if debug_opntion == 1
    then record { logout = some stdout; error_log = some stdout }
    else if debug_opntion == 2
    then record {
      logout = open_file opens log_file_output true;
      error_log = open_file opens log_file_error true;
    }
    else record { logout = none; error_log = none }

-- The result is the file that a call writes to, and what it writes.
module _ (std : Standard) (memory : ℕ → Bool) (texts : ℕ → List ℕ) (bd_time : Tm)
    (buff_stack : List ℕ) where
  abbrev log_to : Option File → List ℕ → Option (File × Logged)
  log_to none level_tag = none
  log_to (some file) level_tag =
      some (file, log std memory texts (date bd_time level_tag) buff_stack)

  unfoldable pub log_error : Devices → Option (File × Logged)
  log_error d = log_to d.error_log (codes "ERROR")

  unfoldable pub log_info : Devices → Option (File × Logged)
  log_info d = log_to d.logout (codes "INFO")

length-two_digits : (n : ℕ) → length (two_digits n) ≤ 11
unfolding two_digits
length-two_digits n =
    if-cases (λ ds. length ds ≤ 11) (ltb n 10) {x = 48 ∷ to_string n} {y = to_string n}
      (λ h. omega (arith, length-to_string n)) (λ h. omega (arith, length-to_string n))

-- Two digits or more, and what follows them.
length-field : (n : ℕ) (bytes : List ℕ) → length (two_digits n ++ bytes) ≤ 11 + length bytes
length-field n bytes = omega (arith, length-append (two_digits n) bytes, length-two_digits n)

-- `buff_date` has 128 bytes: whatever the clock says, the text and its 0 fit, for a tag of at most 50
-- bytes.
pub date-Fits :
    (bd_time : Tm) (level_tag : List ℕ)
    → length level_tag ≤ 50
    → length (date bd_time level_tag) < 128
unfolding date
date-Fits bd_time level_tag h = omega (arith, length-field, length-append level_tag (codes "] "), h)
