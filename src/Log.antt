-- ===== src/Log.antt =====
-- Server/log.c and ClientTest/log.c, which differ in the size of a buffer and in how a file is opened:
-- what a line of the log is, how it is built in memory, and where it goes.
pub mod Strmake
pub mod Lines
pub mod Streams
use server_simple.Base.{
  ℕ, zero, suc, ◌+◌, ◌-◌, ◌*◌, ◌%◌, ◌^◌, ◌≤◌, ◌<◌, ◌≡◌, ◌⊎◌, Bool, true, false, Option, none, some,
  List, [], ◌∷◌, ◌++◌, leb, ltb, ◌==◌, if◌then◌else◌, length, take, write_at, replicate, codes,
  c_string,
}
use server_simple.Notify.{to_string}

-- The first loop of `strmake`: `n`, for at most `length` bytes of `src`, its first 0 included.
abbrev pub scan : ℕ → List ℕ → ℕ
scan zero src = 0
scan (suc length) [] = 0
scan (suc length) (b ∷ src) = if b == 0 then 1 else suc (scan length src)

-- The second loop: the result is where the 0 is put, and `dst`, `at` being how far it is filled.
abbrev pub copy : ℕ → ℕ → List ℕ → List ℕ → ℕ × List ℕ
copy at zero src dst = (at, write_at dst at (0 ∷ []))
copy at (suc length) [] dst = (at, dst)
copy at (suc length) (b ∷ src) dst =
    let rest = copy (at + 1) length src (write_at dst at (b ∷ [])) in
    if b == 0 then (at, write_at dst at (b ∷ [])) else rest

-- `strmake` on the bytes from `dst` and from `src` on. What is behind the text is filled with 'Z'.
unfoldable pub strmake : List ℕ → List ℕ → ℕ → ℕ × List ℕ
strmake dst src length =
    let n = scan length src in copy 0 length src (write_at dst n (replicate (length - n + 1) b'Z'))

-- `vsnprintf` of the standard library, which "can vary, according to various standards": a text that
-- fits gives its length; one that does not gives a negative number, the size, or its length.
pub record Standard : Type 0 where
  pub returns : ℕ → ℕ → Option ℕ
  pub fits : (size len : ℕ) → len < size → returns size len ≡ some len
  pub too_long :
      (size len : ℕ)
      → size ≤ len
      → (returns size len ≡ none) ⊎ ((returns size len ≡ some size) ⊎ (returns size len ≡ some len))

-- The bytes that `vsnprintf` stores in a buffer of this size.
abbrev pub stored : ℕ → List ℕ → List ℕ
stored size text = take (size - 1) text ++ 0 ∷ []

-- What a call of `log` does to a file that is open: one line in the file, a write through NULL, or an overflow of an
-- int.
pub data Logged : Type 0 where
  null_written overflows : Logged
  printed : List ℕ → Logged

-- `fprintf(file, "%s%s\n", buff_date, buff_msg)`
abbrev pub line : List ℕ → List ℕ → List ℕ
line buff_date buff_msg = buff_date ++ (c_string buff_msg ++ 10 ∷ [])

abbrev pub too_big : List ℕ
too_big = codes "log(): message is too big, my_malloc() failed"

-- What all calls of one `log` share. `texts k` is what the format gives in its call number `k` of
-- `vsnprintf`: after the first the `va_list` is used up, and C does not say what the others read.
module _ (std : Standard) (memory : ℕ → Bool) (texts : ℕ → List ℕ) (buff_date : List ℕ) where
  -- The loop, from the test of `buff_msg` on, with a buffer of `size` bytes. Each round doubles the
  -- size, so `fuel` 31 is more than an int allows.
  pub grow : List ℕ → ℕ → ℕ → ℕ → Logged
  grow buff_stack zero k size = overflows
  grow buff_stack (suc fuel) k size =
      let rest = grow buff_stack fuel (k + 1) (size * 2) in
      if leb (2 ^ 31) size
      then overflows
      else if memory size
      then elim (std.returns size (length (texts k))) [
        | none ↦ rest
        | some n ↦ if ltb n size then printed (line buff_date (stored size (texts k))) else rest
      ]
      else printed
          (line buff_date (strmake buff_stack (too_big ++ 0 ∷ []) (length buff_stack - 1)).1)

  -- The third branch, with `n` above the size of the buffer.
  pub exact : ℕ → Logged
  exact n =
      if memory (n + 1) then printed (line buff_date (stored (n + 1) (texts 1))) else null_written

  pub by_length : List ℕ → Option ℕ → Logged
  unfolding grow exact
  by_length buff_stack none = grow buff_stack 31 1 (length buff_stack * 2)
  by_length buff_stack (some n) =
      if n == length buff_stack
      then grow buff_stack 31 1 (length buff_stack * 2)
      else if ltb (length buff_stack) n
      then exact n
      else printed (line buff_date buff_stack)

  -- `log` from "Format the message" on; `buff_stack` is the array as it is found.
  unfoldable pub log : List ℕ → Logged
  unfolding by_length
  log buff_stack =
      by_length (write_at buff_stack 0 (stored (length buff_stack) (texts 0)))
        (std.returns (length buff_stack) (length (texts 0)))
