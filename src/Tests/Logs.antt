-- ===== src/Tests/Logs.antt =====
-- Lines of the log.
use server_simple.Base.{ℕ, ◌≡◌, inr, refl, true, false, some, List, [], ◌∷◌, ◌++◌, codes, arith}
use server_simple.Notify.{to_string, decimal}
use server_simple.Log.{Standard, printed, strmake, log}
use server_simple.Log.Lines.{Logs, log-Logs}
use server_simple.Log.Streams.{date, stdout, log_init, log_error}

-- The standard of 1999.
abbrev iso : Standard
iso = record {
  returns = λ size len. some len;
  fits = λ size len h. refl;
  too_long = λ size len h. inr (inr refl);
}

abbrev a_date : List ℕ
a_date = codes "[26/11/26 19:02:50] [INFO] "

a_date_lem :
    date
      (record { tm_year = 126; tm_mon = 10; tm_mday = 26; tm_hour = 19; tm_min = 2; tm_sec = 50 })
      (codes "INFO")
    ≡ a_date
unfolding date to_string decimal
a_date_lem = refl

-- A buffer of 4 bytes, with room for three and a 0.
abbrev small_buffer : List ℕ
small_buffer = 1 ∷ 2 ∷ 3 ∷ 4 ∷ []

abbrev short_text : ℕ → List ℕ
short_text k = codes "abc"

abbrev long_text : ℕ → List ℕ
long_text k = codes "abcdef"

a_short_line :
    log iso (λ n. false) short_text a_date small_buffer ≡ printed (a_date ++ codes "abc\n")
unfolding log
a_short_line = refl

a_long_line :
    log iso (λ n. true) long_text a_date small_buffer ≡ printed (a_date ++ codes "abcdef\n")
unfolding log
a_long_line = refl

-- Its length is the size of the buffer, and there is no memory for twice that.
no_room :
    log iso (λ n. false) (λ k. codes "abcd") a_date small_buffer ≡ printed (a_date ++ codes "log\n")
unfolding log strmake
no_room = refl

log-Logs_example :
    Logs iso (λ n. false) long_text a_date 4 (log iso (λ n. false) long_text a_date small_buffer)
log-Logs_example =
    log-Logs iso (λ n. false) long_text a_date small_buffer (omega arith) (omega arith)
      (λ j. omega arith)

a_copy : strmake small_buffer (codes "a" ++ 0 ∷ 9 ∷ []) 2 ≡ (1, b'a' ∷ 0 ∷ b'Z' ∷ 4 ∷ [])
unfolding strmake
a_copy = refl

-- As the Makefile sets it, both logs go to stdout.
a_run :
    log_error iso
      (λ n. true)
      short_text
      (record { tm_year = 126; tm_mon = 10; tm_mday = 26; tm_hour = 19; tm_min = 2; tm_sec = 50 })
      small_buffer
      (log_init (λ name. false) 1)
    ≡ some (stdout, printed (codes "[26/11/26 19:02:50] [ERROR] abc\n"))
unfolding log_error log_init log date to_string decimal
a_run = refl
