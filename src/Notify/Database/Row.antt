-- ===== src/Notify/Database/Row.antt =====
-- The task that starts an alarm, where the database has a row for the user.
use server_simple.Base.{ℕ, ◌≡◌, ap, true, false, some, List, [], ◌∷◌}
use server_simple.Notify.{Notify, alarm_time}
use server_simple.Notify.Database.{
  start_alarm, row, Mysql, dealt, start_query, token_query, set_columns, with_columns, read_token,
  record_id, run_task, deal_task,
}
use server_simple.Notify.Database.Deals.{record_id-Changes}

-- The task that starts an alarm, where it connects, is not stopped and finds a row of two columns.
pub deal_task-row :
    (db : Mysql) (tm : ℕ × ℕ) (n : Notify) (token type : List ℕ)
    → n.thread_exit ≡ false
    → db.handle ≡ true
    → db.connects ≡ true
    → db.select (token_query n) ≡ row (some token ∷ some type ∷ [])
    → (m : Notify) × (deal_task db start_alarm false tm n 0 ≡ dealt true m false)
      × (m ≡ record n {
        id_start_alarm_from_db = m.id_start_alarm_from_db;
        tokens = token;
        device_type = type;
      })
unfolding deal_task run_task read_token with_columns set_columns
deal_task-row db (tm_hour, tm_min) n token type alive e e' found =
    let query = start_query n (alarm_time n tm_hour tm_min) in
    let m = record_id (db.insert query) n in
    (
      record m { tokens = token; device_type = type },
      simp (alive, e, e', found),
      ap {B = Notify} (λ (k : Notify). record k { tokens = token; device_type = type })
          (record_id-Changes (db.insert query) n),
    )
