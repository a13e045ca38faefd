-- ===== src/Notify/Database/Deals.antt =====
-- What `MysqlDealTask` returns, leaves open and writes.
use server_simple.Base.{
  ℕ, zero, suc, ◌≡◌, refl, sym, ap, ◌∙◌, ◌⊎◌, inl, inr, if-cases, was_true, was_false, first_off,
  later_off, Bool, true, false, not, ◌&&◌, ◌||◌, leb, ◌==◌, Option, none, some, List, [], ◌∷◌,
}
use server_simple.Notify.{Notify, alarm_time, mysql_deal_task}
use server_simple.Notify.Database.{
  Task, start_alarm, insert_user_message, get_messages, stop_alarm, Selected, query_failed,
  no_result, no_row, row, Mysql, Dealt, dealt, null_column, start_query, token_query, set_columns,
  with_columns, read_token, record_id, run_task, deal_task, is_insert,
}

-- Whether the second query gives a result.
abbrev pub selects : Selected → Bool
selects query_failed = false
selects no_result = false
selects no_row = true
selects (row columns) = true

abbrev pub is_start : Task → Bool
is_start start_alarm = true
is_start insert_user_message = false
is_start get_messages = false
is_start stop_alarm = false

-- Whether a task that asks the database gets through.
abbrev pub gets_through : Mysql → Task → Bool → Notify → Bool
gets_through db task stopped n =
    db.handle
    && (db.connects && (not (is_start task) || (stopped || selects (db.select (token_query n)))))

-- Whether the connection is lost: a task that starts an alarm asks, connects, and is then stopped or
-- has no result.
abbrev pub loses : Mysql → Task → Bool → Notify → Bool
loses db task stopped n =
    not n.thread_exit
    && (db.handle
        && (db.connects
            && (is_start task && (stopped || not (selects (db.select (token_query n)))))))

-- The object after a call: nothing but its id in the database and two strings may be new.
abbrev pub Changes : Notify → Notify → Type 0
Changes n out = out ≡ record n {
  id_start_alarm_from_db = out.id_start_alarm_from_db;
  tokens = out.tokens;
  device_type = out.device_type;
}

-- What a call did: only the task that starts an alarm may come upon a NULL column.
abbrev pub Deals : Mysql → Task → Bool → Notify → ℕ → Dealt → Type 0
Deals db task stopped n index null_column = task ≡ start_alarm
Deals db task stopped n index (dealt result out open_connection) =
    (result ≡ mysql_deal_task n (gets_through db task stopped n) (is_insert task) index)
    × (open_connection ≡ loses db task stopped n)
    × Changes n out

abbrev MayChange : Notify → Option Notify → Type 0
MayChange n none = Unit {0}
MayChange n (some out) = Changes n out

set_columns-MayChange :
    (idx : ℕ) (columns : List (Option (List ℕ))) (n m : Notify)
    → Changes n m
    → MayChange n (set_columns idx columns m)
unfolding set_columns
set_columns-MayChange idx [] n m h = h
set_columns-MayChange idx (none ∷ columns) n m h = tt
set_columns-MayChange zero (some column ∷ columns) n m h =
    set_columns-MayChange 1 columns n (record m { tokens = column })
      (ap {B = Notify} (λ (k : Notify). record k { tokens = column }) h)
set_columns-MayChange (suc i) (some column ∷ columns) n m h =
    set_columns-MayChange (suc (suc i)) columns n (record m { device_type = column })
      (ap {B = Notify} (λ (k : Notify). record k { device_type = column }) h)

-- The task that starts an alarm, on a connection, `found` being whether there is a result.
abbrev Finds : Bool → Notify → Dealt → Type 0
Finds found n null_column = Unit {0}
Finds found n (dealt result out open_connection) =
    (result ≡ found) × (open_connection ≡ not found) × Changes n out

with_columns-Finds :
    (n : Notify) (o : Option Notify) → MayChange n o → Finds true n (with_columns o)
unfolding with_columns
with_columns-Finds n none h = tt
with_columns-Finds n (some out) h = (refl, refl, h)

read_token-Finds :
    (s : Selected) (n m : Notify) → Changes n m → Finds (selects s) n (read_token s m)
unfolding read_token
read_token-Finds query_failed n m h = (refl, refl, h)
read_token-Finds no_result n m h = (refl, refl, h)
read_token-Finds no_row n m h = (refl, refl, h)
read_token-Finds (row columns) n m h =
    with_columns-Finds n (set_columns 0 columns m) (set_columns-MayChange 0 columns n m h)

pub record_id-Changes : (o : Option ℕ) (n : Notify) → Changes n (record_id o n)
unfolding record_id
record_id-Changes none n = refl
record_id-Changes (some id) n = refl

-- A task that may be skipped starts no alarm.
skipped_start :
    (task : Task) (a b : Bool) → (is_insert task && a) ≡ true → (is_start task && b) ≡ false
skipped_start start_alarm a b h = cc
skipped_start insert_user_message a b h = refl
skipped_start get_messages a b h = cc
skipped_start stop_alarm a b h = cc

module _ (db : Mysql) (task : Task) (stopped : Bool) (tm : ℕ × ℕ) (n : Notify) (index : ℕ) where
  abbrev skips : Bool
  skips = is_insert task && ((n.number_message == 0) || leb n.number_message index)

  -- A call that comes to the database, `through` being whether it gets through.
  asked :
      (through : Bool)
      → n.thread_exit ≡ false
      → skips ≡ false
      → mysql_deal_task n through (is_insert task) index ≡ through
  unfolding mysql_deal_task
  asked through h h' = simp (h, h')

  -- A call that does not.
  unasked :
      (through : Bool)
      → (n.thread_exit ≡ true) ⊎ (skips ≡ true)
      → mysql_deal_task n through (is_insert task) index ≡ true
  unfolding mysql_deal_task
  unasked through (inl h) = simp h
  unasked through (inr h) =
      if-cases (λ (b : Bool). b ≡ true) n.thread_exit (λ e. refl) (λ e. simp h)

-- What follows from the end of the task that starts an alarm.
Finds-Deals :
    (db : Mysql) (tm : ℕ × ℕ) (n : Notify) (index : ℕ) (d : Dealt)
    → n.thread_exit ≡ false
    → db.handle ≡ true
    → db.connects ≡ true
    → Finds (selects (db.select (token_query n))) n d
    → Deals db start_alarm false n index d
Finds-Deals db tm n index null_column h e e' f = refl
Finds-Deals db tm n index (dealt result out open_connection) h e e' (same, lost, shape) = (
  same ∙ sym (asked db start_alarm false tm n index _ h refl ∙ simp (e, e')),
  lost ∙ sym (simp (h, e, e')),
  shape,
)

run_task-Deals :
    (db : Mysql) (task : Task) (stopped : Bool) (tm : ℕ × ℕ) (n : Notify) (index : ℕ)
    → n.thread_exit ≡ false
    → skips db task stopped tm n index ≡ false
    → db.handle ≡ true
    → db.connects ≡ true
    → Deals db task stopped n index (run_task db task stopped tm n)
unfolding run_task
run_task-Deals db start_alarm true (tm_hour, tm_min) n index h h' e e' = (
  sym (asked db start_alarm true (tm_hour, tm_min) n index _ h refl ∙ simp (e, e')),
  sym (simp (h, e, e')),
  refl,
)
run_task-Deals db start_alarm false (tm_hour, tm_min) n index h h' e e' =
    let query = start_query n (alarm_time n tm_hour tm_min) in
    Finds-Deals db (tm_hour, tm_min) n index _ h e e'
      (read_token-Finds (db.select (token_query n)) n (record_id (db.insert query) n)
        (record_id-Changes (db.insert query) n))
run_task-Deals db insert_user_message stopped tm n index h h' e e' = (
  sym (asked db insert_user_message stopped tm n index _ h h' ∙ simp (e, e')),
  simp (h, e, e'),
  refl,
)
run_task-Deals db get_messages stopped tm n index h h' e e' =
    (sym (asked db get_messages stopped tm n index _ h h' ∙ simp (e, e')), simp (h, e, e'), refl)
run_task-Deals db stop_alarm stopped tm n index h h' e e' =
    (sym (asked db stop_alarm stopped tm n index _ h h' ∙ simp (e, e')), simp (h, e, e'), refl)

-- A call of `MysqlDealTask`, whatever MySQL answers: its result is the one that the thread's loop is
-- described with, and it leaves the MySQL connection open exactly if it is the one that starts an
-- alarm, connects, and then is stopped or finds no result. Of the object it changes at most the id in
-- the database, the token and the device's type.
pub deal_task-Deals :
    (db : Mysql) (task : Task) (stopped : Bool) (tm : ℕ × ℕ) (n : Notify) (index : ℕ)
    → Deals db task stopped n index (deal_task db task stopped tm n index)
unfolding deal_task
deal_task-Deals db task stopped tm n index =
    let through = gets_through db task stopped n in
    if-cases (Deals db task stopped n index) n.thread_exit
      (λ h. (sym (unasked db task stopped tm n index through (inl h)), sym (simp h), refl))
      (λ h.
        if-cases (Deals db task stopped n index) (skips db task stopped tm n index)
          (λ h'. (
            sym (unasked db task stopped tm n index through (inr h')),
            sym (
                later_off (not n.thread_exit) _ (
                  later_off db.handle _ (
                    later_off db.connects _ (
                      skipped_start task _ (stopped || not (selects (db.select (token_query n))))
                        h')))),
            refl,
          ))
          (λ h'.
            if-cases (Deals db task stopped n index) (not db.handle)
              (λ e. (
                sym (asked db task stopped tm n index through h h' ∙ first_off _ _ (was_true _ e)),
                sym (later_off _ _ (first_off _ _ (was_true _ e))),
                refl,
              ))
              (λ e.
                if-cases (Deals db task stopped n index) (not db.connects)
                  (λ e'. (
                    sym (
                        asked db task stopped tm n index through h h'
                        ∙ later_off _ _ (first_off _ _ (was_true _ e'))),
                    sym (later_off _ _ (later_off _ _ (first_off _ _ (was_true _ e')))),
                    refl,
                  ))
                  (λ e'.
                    run_task-Deals db task stopped tm n index h h' (was_false _ e)
                      (was_false _ e')))))
