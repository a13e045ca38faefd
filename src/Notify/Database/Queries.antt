-- ===== src/Notify/Database/Queries.antt =====
-- The sizes of the queries.
use server_simple.Base.{ℕ, ◌+◌, ◌≤◌, ◌<◌, arith, List, ◌++◌, length, length-append, codes}
use server_simple.Notify.{Notify}
use server_simple.Notify.Database.{print_int, start_query, token_query}
use server_simple.Notify.Database.Decimal.{length-print_int}

-- A part of a query with a number behind it.
field :
    (text rest : List ℕ) (bits b c : ℕ)
    → length rest ≤ c
    → length text + 11 + c ≤ b
    → length (text ++ (print_int bits ++ rest)) ≤ b
field text rest bits b c h fits = omega (
  arith,
  length-append text (print_int bits ++ rest),
  length-append (print_int bits) rest,
  length-print_int bits,
)

-- Both queries fit into `char query[1024]` with the 0 behind them, whatever numbers the notification
-- and the time have.
pub queries-Fit :
    (n : Notify) (time : ℕ × ℕ)
    → (length (start_query n time) < 1024) × (length (token_query n) < 1024)
unfolding start_query token_query
queries-Fit n (hour, minute) =
    let start : length (start_query n (hour, minute)) ≤ 200 =
      field (codes "INSERT INTO StartAlarm VALUES (0,") _ n.user_index 200 130
        (field (codes ",CONCAT( ") _ hour 130 100
          (field (codes " ,':',") _ minute 100 70
            (field (codes "),") _ n.interval 70 40
              (field (codes ",") (codes ",0,now(),0)") n.number_of_repeat 40 11 (omega arith)
                (omega arith))
              (omega arith))
            (omega arith))
          (omega arith))
        (omega arith) in
    let text : List ℕ = codes "SELECT DeviceToken,DeviceType FROM Users WHERE UserIndex=" in
    (
      omega (arith, start),
      omega (arith, length-append text (print_int n.user_index), length-print_int n.user_index),
    )
