-- ===== src/Notify/Database.antt =====
-- `MysqlDealTask` of Server/NotifyMessage.cc with its queries. What MySQL answers is an argument.
pub mod Deals
pub mod Row
pub mod Queries
pub mod Decimal
use server_simple.Base.{
  ℕ, zero, suc, ◌-◌, ◌^◌, Bool, true, false, not, ◌&&◌, ◌||◌, Option, none, some, List, [], ◌∷◌,
  ◌++◌, ltb, leb, ◌==◌, if◌then◌else◌, codes,
}
use server_simple.Notify.{Notify, to_string, alarm_time}

-- `db_task`, less DB_TASK_INSERT_USER_MESSAGE's number of the message, which is `index` below.
pub data Task : Type 0 where
  start_alarm insert_user_message get_messages stop_alarm : Task

-- What the second query gives: a failure, no result, no row, or a row, in which NULL is `none`.
pub data Selected : Type 0 where
  query_failed no_result no_row : Selected
  row : List (Option (List ℕ)) → Selected

-- `mysql_init`, `mysql_real_connect`, and the two queries.
pub record Mysql : Type 0 where
  pub handle : Bool
  pub connects : Bool
  -- `none` for an error, and else the id of the new row.
  pub insert : List ℕ → Option ℕ
  pub select : List ℕ → Selected

-- How a call ends: with its result, the object, and whether the connection was left open; or in
-- the assignment of a NULL column to a string.
pub data Dealt : Type 0 where
  dealt : Bool → Notify → Bool → Dealt
  null_column : Dealt

-- `%d`, from the 32 bits.
abbrev pub print_int : ℕ → List ℕ
print_int bits = if ltb bits (2 ^ 31) then to_string bits else 45 ∷ to_string (2 ^ 32 - bits)

-- The first query, `time` being the hour and the minute.
unfoldable pub start_query : Notify → ℕ × ℕ → List ℕ
start_query n (hour, minute) =
    codes "INSERT INTO StartAlarm VALUES (0,"
    ++ (print_int n.user_index
        ++ (codes ",CONCAT( "
            ++ (print_int hour
                ++ (codes " ,':',"
                    ++ (print_int minute
                        ++ (codes "),"
                            ++ (print_int n.interval
                                ++ (codes ","
                                    ++ (print_int n.number_of_repeat ++ codes ",0,now(),0)")))))))))

unfoldable pub token_query : Notify → List ℕ
token_query n =
    codes "SELECT DeviceToken,DeviceType FROM Users WHERE UserIndex=" ++ print_int n.user_index

-- The loop over the columns of the row, from column `idx` on.
unfoldable pub set_columns : ℕ → List (Option (List ℕ)) → Notify → Option Notify
set_columns idx [] n = some n
set_columns idx (none ∷ columns) n = none
set_columns zero (some column ∷ columns) n = set_columns 1 columns (record n { tokens = column })
set_columns (suc i) (some column ∷ columns) n =
    set_columns (suc (suc i)) columns (record n { device_type = column })

with_columns : Option Notify → Dealt
with_columns none = null_column
with_columns (some n) = dealt true n false

read_token : Selected → Notify → Dealt
unfolding with_columns set_columns
read_token query_failed n = dealt false n true
read_token no_result n = dealt false n true
read_token no_row n = dealt true n false
read_token (row columns) n = with_columns (set_columns 0 columns n)

pub record_id : Option ℕ → Notify → Notify
record_id none n = n
record_id (some id) n = record n { id_start_alarm_from_db = id }

-- The `switch`, then `mysql_close`. `stopped` is whether `mThreadExit` is set when `ExitThread` is asked
-- again, and `tm` the local time.
run_task : Mysql → Task → Bool → ℕ × ℕ → Notify → Dealt
unfolding read_token record_id start_query token_query
run_task db start_alarm stopped (tm_hour, tm_min) n =
    let query = start_query n (alarm_time n tm_hour tm_min) in
    let done = read_token (db.select (token_query n)) (record_id (db.insert query) n) in
    if stopped then dealt true n true else done
run_task db insert_user_message stopped tm n = dealt true n false
run_task db get_messages stopped tm n = dealt true n false
run_task db stop_alarm stopped tm n = dealt true n false

abbrev pub is_insert : Task → Bool
is_insert insert_user_message = true
is_insert start_alarm = false
is_insert get_messages = false
is_insert stop_alarm = false

unfoldable pub deal_task : Mysql → Task → Bool → ℕ × ℕ → Notify → ℕ → Dealt
unfolding run_task
deal_task db task stopped tm n index =
    let run = run_task db task stopped tm n in
    if n.thread_exit
    then dealt true n false
    else if is_insert task && ((n.number_message == 0) || leb n.number_message index)
    then dealt true n false
    else if not db.handle
    then dealt false n false
    else if not db.connects
    then dealt false n false
    else run
