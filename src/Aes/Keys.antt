-- ===== src/Aes/Keys.antt =====
-- `KeyGenerator` of Server/aes.c, which makes the server's private key. The cipher, `rand` and the
-- clock are arguments.
pub mod Entropy
use server_simple.Base.{
  ℕ, zero, suc, ◌+◌, ◌*◌, ◌-◌, ◌/◌, ◌%◌, ◌^◌, ◌≤◌, ◌<◌, ◌≡◌, refl, sym, ap, ◌∙◌, Bool, true, false,
  ◌&&◌, Option, none, some, List, [], ◌∷◌, ◌++◌, leb, if◌then◌else◌, length, take, drop, write_at,
  arith,
}
use server_simple.Aes.{aes_keylen}

-- What the calls give: `time(0)` in the `k`-th call, `gettimeofday` in microseconds in the `k`-th
-- call, and the `i`-th `rand()` after `srand(seed)`.
pub record Chance : Type 0 where
  pub seconds : ℕ → ℕ
  pub micros : ℕ → ℕ
  pub rand : ℕ → ℕ → ℕ

-- `n` bytes of `rand()`, from the `i`-th on.
abbrev pub random_bytes : (ℕ → ℕ) → ℕ → ℕ → List ℕ
random_bytes rand zero i = []
random_bytes rand (suc n) i = (rand i % 256) ∷ random_bytes rand n (i + 1)

-- `(newtime >> i*8) & 0xFF` for `i < 8`.
abbrev pub time_bytes : ℕ → List ℕ
time_bytes t =
    (t % 256)
    ∷ (t / 2 ^ 8 % 256)
    ∷ (t / 2 ^ 16 % 256)
    ∷ (t / 2 ^ 24 % 256)
    ∷ (t / 2 ^ 32 % 256)
    ∷ (t / 2 ^ 40 % 256)
    ∷ (t / 2 ^ 48 % 256)
    ∷ (t / 2 ^ 56 % 256)
    ∷ []

-- The bytes of one round: of `buf`, and of `key`.
abbrev pub plain_bytes : Chance → ℕ → List ℕ
plain_bytes c j = random_bytes (c.rand (c.seconds (2 * j))) aes_keylen 0

abbrev pub key_bytes : Chance → ℕ → List ℕ
key_bytes c j = time_bytes (c.micros j) ++ random_bytes (c.rand (c.seconds (2 * j + 1))) 8 0

-- The loop, `left` rounds of it from round `j` on. `none` is for a write behind the end of `buf` or
-- `key`.
unfoldable pub key_rounds : Chance → ℕ → ℕ → List ℕ → List ℕ → Option (List ℕ × List ℕ)
key_rounds c zero j buf key = some (buf, key)
key_rounds c (suc left) j buf key =
    let buf' = write_at buf (j * aes_keylen) (plain_bytes c j) in
    let key' = write_at key (j * aes_keylen) (key_bytes c j) in
    let rest = key_rounds c left (j + 1) buf' key' in
    if leb ((j + 1) * aes_keylen) (length buf) && leb ((j + 1) * aes_keylen) (length key)
    then rest
    else none

-- `encrypt key iv message` is the CBC encryption.
abbrev pub encrypted :
    (List ℕ → List ℕ → List ℕ → List ℕ) → Option (List ℕ × List ℕ) → Option (List ℕ)
encrypted encrypt none = none
encrypted encrypt (some (buf, key)) = some (encrypt (take aes_keylen key) (drop aes_keylen key) buf)

-- `stack` are the bytes that `key` has before it is written, and the length is that of `buf`.
unfoldable pub key_generator :
    Chance → (List ℕ → List ℕ → List ℕ → List ℕ) → List ℕ → List ℕ → Option (List ℕ)
unfolding key_rounds
key_generator c encrypt stack buf = encrypted encrypt (
    key_rounds c ((length buf + (aes_keylen - 1)) / aes_keylen) 0 buf (take (2 * aes_keylen) stack))
