-- ===== src/Aes.antt =====
-- The padding of Server/aes.c and Server/aes.h, and `DecryptData` of Server/net_connect.cc, which
-- stands on it. The cipher itself is a copy of another project's, and an argument here.
pub mod EndsWith
pub mod Padding
pub mod Keys
use server_simple.Base.{
  ℕ, zero, suc, ◌+◌, ◌-◌, ◌%◌, ◌^◌, Bool, true, false, not, ◌||◌, Option, none, some, List, [], ◌∷◌,
  ◌++◌, leb, ◌==◌, if◌then◌else◌, length, take, drop, get_or, replicate,
}

-- AES_KEYLEN of AES128.
abbrev pub aes_keylen : ℕ
aes_keylen = 16

-- `PaddingDataPKCS7`: the new buffer, if `malloc` gives it, and `*padded_len`. The length is an
-- unsigned 32-bit int.
unfoldable pub padding_data_pkcs7 : Bool → List ℕ → Option (List ℕ) × ℕ
padding_data_pkcs7 allocated buf =
    let remain = aes_keylen - (length buf % aes_keylen) in
    (
      if allocated then some (buf ++ replicate remain remain) else none,
      (length buf + remain) % 2 ^ 32,
    )

-- The inner loop: from `j` on, `left` rounds at most, how far the last bytes are `i`. A position
-- before the buffer is a read out of its bounds, and stops the loop here.
pub same_bytes : List ℕ → ℕ → ℕ → ℕ → ℕ
same_bytes buf i zero j = j
same_bytes buf i (suc left) j =
    let rest = same_bytes buf i left (j + 1) in
    if (not (leb (j + 1) (length buf))) || not (get_or buf (length buf - 1 - j) 0 == i)
    then j
    else rest

-- The outer loop from `i` on, `left` rounds at most.
pub find_padding : List ℕ → ℕ → ℕ → ℕ
unfolding same_bytes
find_padding buf zero i = i
find_padding buf (suc left) i =
    let rest = find_padding buf left (i + 1) in
    if get_or buf (length buf - 1) 0 == i
    then if same_bytes buf i i 0 == i then i else rest
    else rest

-- `UnPaddingDataPKCS7` on a buffer that is not empty.
unfoldable pub un_padding_data_pkcs7 : List ℕ → ℕ
unfolding find_padding
un_padding_data_pkcs7 buf =
    let i = find_padding buf aes_keylen 1 in
    if leb (aes_keylen + 1) i then length buf else length buf - i

-- `DecryptData`: the length of the text, and the buffer. `decrypt key iv` is the cipher's
-- `AES_CBC_decrypt_buffer` after `AES_init_ctx_iv`.
unfoldable pub decrypt_data : (List ℕ → List ℕ → List ℕ → List ℕ) → List ℕ → List ℕ → ℕ × List ℕ
decrypt_data decrypt aes_key packet =
    let plain = decrypt (take aes_keylen aes_key) (drop aes_keylen aes_key) packet in
    if not (length packet % aes_keylen == 0) || (length packet == 0)
    then (0, packet)
    else (un_padding_data_pkcs7 plain, plain)
