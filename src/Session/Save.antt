-- ===== src/Session/Save.antt =====
-- `SaveToken` of Server/net_connect.cc.
use server_simple.Base.{
  ℕ, ◌+◌, ◌*◌, ◌%◌, ◌^◌, ◌≤◌, ◌<◌, ◌≡◌, ◌≢◌, refl, if-cases, arith, Bool, true, false, not, Option,
  none, some, List, ◌++◌, codes, leb, if◌then◌else◌, length, length-append,
}
use server_simple.Notify.{Json, Value, int, string, other, json_name}
use server_simple.Registry.{Call, blocked, crashed, returned, ret_ok, ret_not_json_format}

-- The database: whether `mysql_init` and `mysql_real_connect` succeed, and what a query gives, `none`
-- for a failure and else the id of the new row, a number of 64 bits.
pub record Database : Type 0 where
  pub handle : Bool
  pub connects : Bool
  pub run_query : List ℕ → Option ℕ

-- ERROR_CODE_MYSQL + 1 and + 2.
abbrev pub ret_open_error : ℕ
ret_open_error = 1001

abbrev pub ret_query_error : ℕ
ret_query_error = 1002

-- `INSERT INTO Users(UserIndex,…,RegisterDateTime) VALUES (0,'`, then `','` between the values, then
-- `',now())`.
abbrev query_head : List ℕ
query_head = codes (
    "INSERT INTO Users(UserIndex,DeviceToken,DeviceManufacturer,DeviceModel,DeviceVersion,AppVersion,DeviceType,RegisterDateTime) VALUES (0,'")

abbrev query_comma : List ℕ
query_comma = codes "','"

abbrev query_tail : List ℕ
query_tail = codes "',now())"

-- The query, the six values being members of the same name.
pub insert_query : List ℕ → List ℕ
insert_query s =
    query_head
    ++ (s
        ++ (query_comma
            ++ (s
                ++ (query_comma
                    ++ (s
                        ++ (query_comma
                            ++ (s
                                ++ (query_comma ++ (s ++ (query_comma ++ (s ++ query_tail)))))))))))

-- `char query[1024]`, with the 0 that `sprintf` writes.
abbrev query_size : ℕ
query_size = 1024

-- After the query. `uid` points to an unsigned int of 32 bits, and the id is cut to these.
pub answer : Option ℕ → ℕ → Call × ℕ
answer none uid = (returned ret_query_error, uid)
answer (some id) uid = (returned ret_ok, id % 2 ^ 32)

-- `sprintf` is outside of its buffer where the query is too long.
save : Database → ℕ → List ℕ → Call × ℕ
unfolding answer insert_query
save database uid s =
    let query = insert_query s in
    let done = answer (database.run_query query) uid in
    if not database.handle
    then (returned ret_open_error, uid)
    else if not database.connects
    then (returned ret_open_error, uid)
    else if leb query_size (length query)
    then (crashed, uid)
    else done

abbrev as_string : Option Value → Option (List ℕ)
as_string (some (string s)) = some s
as_string (some (int n)) = none
as_string (some other) = none
as_string none = none

save_value : Database → ℕ → Option (List ℕ) → Call × ℕ
unfolding save
save_value database uid none = (returned ret_not_json_format, uid)
save_value database uid (some s) = save database uid s

-- The result and `*uid`. Each of the six members is looked up under its own name, and all six names
-- are "test".
unfoldable pub save_token : Database → Json → ℕ → Call × ℕ
unfolding save_value
save_token database json uid = save_value database uid (as_string (json.member json_name))

answer-ends : (o : Option ℕ) (uid : ℕ) → (answer o uid).0 ≢ blocked
unfolding answer
answer-ends none uid e = cc
answer-ends (some id) uid e = cc

save-ends :
    (database : Database) (uid : ℕ) (o : Option (List ℕ)) → (save_value database uid o).0 ≢ blocked
unfolding save_value save answer
save-ends database uid none e = cc
save-ends database uid (some s) e =
    if-cases (λ (r : Call × ℕ). r.0 ≢ blocked) (not database.handle) (λ h x. cc)
      (λ h.
        if-cases (λ (r : Call × ℕ). r.0 ≢ blocked) (not database.connects) (λ h x. cc)
          (λ h.
            if-cases (λ (r : Call × ℕ). r.0 ≢ blocked) (leb query_size (length (insert_query s)))
              (λ h x. cc) (λ h. answer-ends (database.run_query (insert_query s)) uid)))
      e

-- Saving a token waits for no mutex.
pub save_token-ends :
    (database : Database) (json : Json) (uid : ℕ) → (save_token database json uid).0 ≢ blocked
unfolding save_token
save_token-ends database json uid = save-ends database uid (as_string (json.member json_name))

length-insert_query : (s : List ℕ) → length (insert_query s) ≡ 159 + 6 * length s
unfolding insert_query
length-insert_query s =
    let t1 = query_comma ++ (s ++ query_tail) in
    let t2 = query_comma ++ (s ++ t1) in
    let t3 = query_comma ++ (s ++ t2) in
    let t4 = query_comma ++ (s ++ t3) in
    let t5 = query_comma ++ (s ++ t4) in
    omega (
      arith,
      length-append s query_tail,
      length-append s t1,
      length-append s t2,
      length-append s t3,
      length-append s t4,
      length-append s t5,
    )

-- What the result of the query makes of the call.
abbrev pub Answered : Option ℕ → ℕ → Call × ℕ → Type 0
Answered none uid r = r ≡ (returned ret_query_error, uid)
Answered (some id) uid r = r ≡ (returned ret_ok, id % 2 ^ 32)

answer-Answered : (o : Option ℕ) (uid : ℕ) → Answered o uid (answer o uid)
unfolding answer
answer-Answered none uid = refl
answer-Answered (some id) uid = refl

-- Where the database is connected, and the packet has a string under the name that all the names
-- are: the query is written inside its buffer exactly for a string below 145 bytes. Then
-- CLIENT_REQUEST_RET_OK comes back with the id of the new row modulo 2^32, or the error of the query
-- with the old id; above, the write is outside.
pub save_token_lem :
    (database : Database) (json : Json) (uid : ℕ) (s : List ℕ)
    → database.handle ≡ true
    → database.connects ≡ true
    → json.member json_name ≡ some (string s)
    → (length s < 145
        → Answered (database.run_query (insert_query s)) uid (save_token database json uid))
      × (145 ≤ length s → (save_token database json uid).0 ≡ crashed)
unfolding save_token save_value save
save_token_lem database json uid s handle connects e = (
  λ short.
      let fits : leb query_size (length (insert_query s)) ≡ false =
        ground (arith, length-insert_query s) in
      simp (e, handle, connects, fits) (answer-Answered (database.run_query (insert_query s)) uid),
  λ long.
      let over : leb query_size (length (insert_query s)) ≡ true =
        ground (arith, length-insert_query s) in
      simp (e, handle, connects, over),
)
