-- ===== src/Notify/Request.antt =====
-- `PushMessage` of Server/NotifyMessage.cc after its first test: the request that it gives to libcurl,
-- and the calls of rapidjson's writer that make the body.
use server_simple.Base.{
  ℕ, Bool, true, false, Option, none, some, List, [], ◌∷◌, ◌++◌, codes, if◌then◌else◌, ◌==◌, ◌&&◌,
}
use server_simple.Notify.{Notify, Push, skipped, pushed, out_of_bounds}

-- A call of the writer.
pub data Token : Type 0 where
  start_object end_object : Token
  key : List ℕ → Token
  string : List ℕ → Token
  uint : ℕ → Token

-- The options that are set on the handle. `certificate` are the file and its password.
pub record Request : Type 0 where
  pub url : List ℕ
  pub headers : List (List ℕ)
  pub http_2 : Bool
  pub certificate : Option (List ℕ × List ℕ)
  pub body : List Token

-- PUSH_SERVICE_TITLE of Server/string_data.h, in UTF-8.
abbrev pub push_title : List ℕ
push_title =
    236 ∷ 152 ∷ 164 ∷ 235 ∷ 138 ∷ 152 ∷ 236 ∷ 157 ∷ 128 ∷ 32 ∷ 236 ∷ 151 ∷ 172 ∷ 234 ∷ 184 ∷ 176
    ∷ 234 ∷ 185 ∷ 140 ∷ 236 ∷ 167 ∷ 128 ∷ []

-- Equality of strings.
abbrev pub same_text : List ℕ → List ℕ → Bool
same_text [] [] = true
same_text [] (b ∷ ys) = false
same_text (a ∷ xs) [] = false
same_text (a ∷ xs) (b ∷ ys) = (a == b) && same_text xs ys

abbrev pub android_body : List ℕ → List ℕ → List Token
android_body tokens message =
    start_object
    ∷ key (codes "data")
    ∷ start_object
    ∷ key (codes "title")
    ∷ string push_title
    ∷ key (codes "body")
    ∷ string message
    ∷ end_object
    ∷ key (codes "priority")
    ∷ string (codes "high")
    ∷ key (codes "to")
    ∷ string tokens
    ∷ end_object
    ∷ []

abbrev pub ios_body : List ℕ → List Token
ios_body message =
    start_object
    ∷ key (codes "aps")
    ∷ start_object
    ∷ key (codes "mutable-content")
    ∷ uint 1
    ∷ key (codes "alert")
    ∷ start_object
    ∷ key (codes "title")
    ∷ string push_title
    ∷ key (codes "body")
    ∷ string message
    ∷ end_object
    ∷ key (codes "sound")
    ∷ string (codes "default")
    ∷ end_object
    ∷ end_object
    ∷ []

abbrev pub android_request : Notify → List ℕ → Request
android_request n message = record {
  url = codes "https://fcm.googleapis.com/fcm/send";
  headers =
      codes "Content-Type: application/json ; charset=UTF-8"
      ∷ (codes "Authorization: key=" ++ codes "TestKey")
      ∷ [];
  http_2 = false;
  certificate = none;
  body = android_body n.tokens message;
}

abbrev pub ios_request : Notify → List ℕ → Request
ios_request n message = record {
  url = codes "https://api.push.apple.com:443/3/device/" ++ n.tokens;
  headers = codes "apns-topic:com.timetogo" ∷ [];
  http_2 = true;
  certificate = some (codes "./apns.pem", codes "1234");
  body = ios_body message;
}

-- `mDeviceType.compare(type) == 0`
unfoldable pub push_request : Notify → List ℕ → Request
push_request n message =
    if same_text n.device_type (codes "android")
    then android_request n message
    else ios_request n message

-- The request that a push performs, `curl` being whether `curl_easy_init` succeeds.
unfoldable pub post : Notify → Bool → Push → Option Request
unfolding push_request
post n curl skipped = none
post n curl out_of_bounds = none
post n curl (pushed message) = if curl then some (push_request n message) else none
