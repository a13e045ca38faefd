-- ===== src/Sealed.antt =====
-- Server/net_connect.cc and ClientTest/clientTest.cc with the switch
-- ENABLE_DATA_ENCRYPTION_IN_COMMUNICATION at 1: the exchange of keys, and the data that go both ways
-- encrypted. The other branches of the switch are in Session and Client.
pub mod Exchange
use server_simple.Base.{
  ℕ, ◌+◌, ◌*◌, ◌/◌, ◌%◌, ◌≡◌, Bool, true, false, not, ◌&&◌, ◌||◌, Option, none, some, List, [], ◌∷◌,
  ◌++◌, ltb, leb, ◌==◌, if◌then◌else◌, length, take, drop, get_or, replicate, c_string,
}
use server_simple.Aes.{padding_data_pkcs7, decrypt_data}
use server_simple.Session.{
  Command, ccom_sleep, ccom_quit, ccom_start_notification, ccom_stop_notification, ccom_save_token,
  ccom_hand_shaking, ccom_end, Thd, Env, is_silent, reply, write_and_flush,
}

-- The two copies of other projects: `shared secret point` is `curve25519_donna`, `encrypt key iv` and
-- `decrypt key iv` are AES_CBC_encrypt_buffer and AES_CBC_decrypt_buffer after AES_init_ctx_iv. The
-- laws: the point 0 is of low order, so any multiple of it is 0; decryption undoes encryption on whole
-- blocks, which keeps the length.
pub record Crypto : Type 0 where
  pub shared : List ℕ → List ℕ → List ℕ
  pub encrypt : List ℕ → List ℕ → List ℕ → List ℕ
  pub decrypt : List ℕ → List ℕ → List ℕ → List ℕ
  pub low_order : (secret : List ℕ) → shared secret (replicate 32 0) ≡ replicate 32 0
  pub undoes : (key iv m : List ℕ) → length m % 16 ≡ 0 → decrypt key iv (encrypt key iv m) ≡ m
  pub keeps : (key iv m : List ℕ) → length m % 16 ≡ 0 → length (encrypt key iv m) ≡ length m

-- `baseKey`, of both programs.
abbrev pub base_key : List ℕ
base_key = replicate 32 0

-- The environment of `sendKeytoClient` with this private key.
abbrev pub keyed : Crypto → List ℕ → Env → Env
keyed c secret env = record env {
  public_key = c.shared secret base_key;
  shared_key = c.shared secret;
}

-- PaddingDataPKCS7 and AES_CBC_encrypt_buffer; without memory the cipher writes through NULL.
unfoldable pub seal : Crypto → Bool → List ℕ → List ℕ → Option (List ℕ)
seal c allocated key text = elim (padding_data_pkcs7 allocated text).0 [
  | none ↦ none
  | some padded ↦ some (c.encrypt (take 16 key) (drop 16 key) padded)
]

-- The commands whose packets are not encrypted.
abbrev pub exempt : Command → Bool
exempt ccom_hand_shaking = true
exempt ccom_quit = true
exempt ccom_sleep = false
exempt ccom_start_notification = false
exempt ccom_stop_notification = false
exempt ccom_save_token = false
exempt ccom_end = false

-- What `dispatch_command` does first with a packet of `packet_length` bytes: the command to run, the
-- buffer from the argument on, and the length.
unfoldable pub unseal : Crypto → List ℕ → Command → List ℕ → ℕ → Command × List ℕ × ℕ
unseal c aes_key command packet packet_length =
    let (len, plain) = decrypt_data c.decrypt aes_key (take packet_length packet) in
    let buffer = plain ++ drop packet_length packet in
    if exempt command
    then (command, packet, packet_length)
    else if (len == 0) || (packet_length == len)
    then (ccom_quit, buffer, packet_length)
    else (command, buffer, len)

-- `int2store`
abbrev pub int2store : ℕ → List ℕ
int2store n = (n % 256) ∷ (n / 256 % 256) ∷ []

-- The header in front of what was sealed, if there is room for both in `buffer[1024]`.
abbrev pub with_header : Option (List ℕ) → Option (List ℕ)
with_header none = none
with_header (some bytes) =
    if leb (length bytes + 2) 1024 then some (int2store (length bytes) ++ bytes) else none

-- `net_end_statement` from the text with its 0 on: what goes to the socket. The result `none` is for a
-- crash: no memory for the padding, or a write behind the buffer.
unfoldable pub sealed_reply : Crypto → Bool → List ℕ → List ℕ → Option (List ℕ)
sealed_reply c allocated aes_key text = with_header (seal c allocated aes_key text)

unfoldable pub net_end_statement : Crypto → Bool → Env → Thd → Option Thd
net_end_statement c allocated env thd =
    if is_silent thd.command
    then some thd
    else elim (sealed_reply c allocated thd.net.aes_key (reply env thd)) [
      | none ↦ none
      | some bytes ↦ some (record thd { net = write_and_flush thd.net bytes })
    ]

-- What the client sends for a command with these bytes.
unfoldable pub frame : ℕ → List ℕ → List ℕ
frame command bytes =
    let len = length bytes + 1 in
    (len % 256) ∷ (len / 256 % 256) ∷ (len / 65536 % 256) ∷ 0 ∷ command ∷ bytes

-- The client's first `send`: CCOM_HAND_SHAKING is 5.
abbrev pub hand_shake_frame : Crypto → List ℕ → List ℕ
hand_shake_frame c secret = frame 5 (c.shared secret base_key)

abbrev pub framed : Option (List ℕ) → Option (List ℕ)
framed none = none
framed (some bytes) = some (frame 4 bytes)

-- Its second, of CCOM_SAVE_TOKEN, which is 4; `json` are less than 2000 bytes.
abbrev pub sealed_token_frame : Crypto → Bool → List ℕ → List ℕ → Option (List ℕ)
sealed_token_frame c allocated aes_key json = framed (seal c allocated aes_key (json ++ 0 ∷ []))

-- What the client prints of a reply, `buf` being its buffer after `recv`. The second byte is shifted
-- before it is made an unsigned char again.
unfoldable pub open_reply : Crypto → List ℕ → List ℕ → List ℕ
open_reply c aes_key buf =
    let data_len = get_or buf 0 0 + get_or buf 1 0 * 256 % 256 in
    c_string (
      c.decrypt (take 16 aes_key) (drop 16 aes_key) (take data_len (drop 2 buf))
      ++ drop data_len (drop 2 buf))
