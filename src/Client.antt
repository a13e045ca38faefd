-- ===== src/Client.antt =====
-- ClientTest/clientTest.cc as it is compiled, with ENABLE_DATA_ENCRYPTION_IN_COMMUNICATION 0: what
-- `StartAlarm` sends.
pub mod Frames
pub mod Threads
use server_simple.Base.{
  ℕ, ◌+◌, ◌/◌, ◌%◌, Bool, true, false, not, Option, none, some, List, [], ◌∷◌, ◌++◌, length, codes,
  if◌then◌else◌,
}
use server_simple.Notify.{to_string}

-- `{"TOKEN":"Test_dk101fjAdffPA91bHZo7d%d"}` with the index, which is not negative.
abbrev pub json_text : ℕ → List ℕ
json_text index = codes "{\"TOKEN\":\"Test_dk101fjAdffPA91bHZo7d" ++ to_string index ++ codes "\"}"

-- The first `send`: `json` are the bytes of `json_buf` before its 0, and CCOM_SAVE_TOKEN is 4.
unfoldable pub token_frame : List ℕ → List ℕ
token_frame json =
    let len = length json + 1 in
    (len % 256) ∷ (len / 256 % 256) ∷ (len / 65536 % 256) ∷ 0 ∷ 4 ∷ (json ++ (0 ∷ []))

-- The last `send`: CCOM_QUIT is 1.
abbrev pub quit_frame : List ℕ
quit_frame = 1 ∷ 0 ∷ 0 ∷ 0 ∷ 1 ∷ []

-- What `StartAlarm` has sent when it ends. `connected` is whether `connect` succeeds, and `sends` and
-- `receives` whether the first `send` and the `recv` do.
unfoldable pub start_alarm : ℕ → Bool → Bool → Bool → List ℕ
start_alarm index connected sends receives =
    if not connected
    then []
    else if not sends
    then []
    else if not receives
    then token_frame (json_text index)
    else token_frame (json_text index) ++ quit_frame
