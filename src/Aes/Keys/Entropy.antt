-- ===== src/Aes/Keys/Entropy.antt =====
-- What the private key depends on.
use server_simple.Base.{
  ℕ, zero, suc, ◌+◌, ◌*◌, ◌≤◌, ◌≡◌, refl, sym, ap, ap₂, ◌∙◌, true, some, List, [], ◌∷◌, ◌++◌,
  length, length-append, length-write_at, take, drop, take-append, drop-append, take_all, write_at,
  write_at-append, leb, le→leb, arith, ◌-◌, ◌/◌,
}
use server_simple.Aes.{aes_keylen}
use server_simple.Aes.Keys.{
  Chance, random_bytes, time_bytes, plain_bytes, key_bytes, key_rounds, encrypted, key_generator,
}

length-random_bytes : (rand : ℕ → ℕ) (n i : ℕ) → length (random_bytes rand n i) ≡ n
length-random_bytes rand zero i = refl
length-random_bytes rand (suc n) i = ap suc (length-random_bytes rand n (i + 1))

-- A write over a whole list.
write_at-whole : (xs ys : List ℕ) → length xs ≡ length ys → write_at xs 0 ys ≡ ys
write_at-whole [] [] h = refl
write_at-whole [] (y ∷ ys) h = absurd (omega arith)
write_at-whole (x ∷ xs) [] h = absurd (omega arith)
write_at-whole (x ∷ xs) (y ∷ ys) h = ap (◌∷◌ y) (write_at-whole xs ys (omega (arith, h)))

-- Two blocks of 16 bytes over a list of 32.
two_blocks :
    (xs a b : List ℕ)
    → length xs ≡ 32
    → length a ≡ 16
    → length b ≡ 16
    → write_at (write_at xs 0 a) 16 b ≡ a ++ b
two_blocks xs a b h ha hb =
    write_at-append xs 0 a b 16 (omega (arith, ha)) (omega (arith, h, ha))
    ∙ write_at-whole xs (a ++ b) (omega (arith, h, ha, hb, length-append a b))

-- A round whose bytes fit.
one_round :
    (c : Chance) (left j : ℕ) (buf key : List ℕ)
    → (j + 1) * aes_keylen ≤ length buf
    → (j + 1) * aes_keylen ≤ length key
    → key_rounds c (suc left) j buf key
      ≡ key_rounds c left
          (j + 1)
          (write_at buf (j * aes_keylen) (plain_bytes c j))
          (write_at key (j * aes_keylen) (key_bytes c j))
unfolding key_rounds
one_round c left j buf key h h' =
    let fits : leb ((j + 1) * aes_keylen) (length buf) ≡ true = le→leb _ _ h in
    let fits' : leb ((j + 1) * aes_keylen) (length key) ≡ true = le→leb _ _ h' in
    rw (fits, fits') refl

length-key_bytes : (c : Chance) (j : ℕ) → length (key_bytes c j) ≡ 16
length-key_bytes c j = omega (
  arith,
  length-append (time_bytes (c.micros j)) (random_bytes (c.rand (c.seconds (2 * j + 1))) 8 0),
  length-random_bytes (c.rand (c.seconds (2 * j + 1))) 8 0,
)

two_rounds :
    (c : Chance) (buf key : List ℕ)
    → length buf ≡ 32
    → length key ≡ 32
    → key_rounds c 2 0 buf key
      ≡ some (plain_bytes c 0 ++ plain_bytes c 1, key_bytes c 0 ++ key_bytes c 1)
unfolding key_rounds
two_rounds c buf key hb hk =
    one_round c 1 0 buf key (omega (arith, hb)) (omega (arith, hk))
    ∙ one_round c 0 1 (write_at buf 0 (plain_bytes c 0)) (write_at key 0 (key_bytes c 0))
        (omega (arith, hb, length-write_at buf 0 (plain_bytes c 0)))
        (omega (arith, hk, length-write_at key 0 (key_bytes c 0)))
    ∙ ap₂ (λ b k. some (b, k))
        (two_blocks buf (plain_bytes c 0) (plain_bytes c 1) hb
          (length-random_bytes (c.rand (c.seconds 0)) 16 0)
          (length-random_bytes (c.rand (c.seconds 2)) 16 0))
        (two_blocks key (key_bytes c 0) (key_bytes c 1) hk (length-key_bytes c 0)
          (length-key_bytes c 1))

-- One part of the key in a known second.
key_bytes_at :
    (c : Chance) (j second : ℕ)
    → c.seconds (2 * j + 1) ≡ second
    → key_bytes c j ≡ time_bytes (c.micros j) ++ take 8 (random_bytes (c.rand second) 16 0)
key_bytes_at c j second e = ap (λ s. time_bytes (c.micros j) ++ random_bytes (c.rand s) 8 0) e

first_half : (a b : List ℕ) → length a ≡ 16 → take 16 (a ++ b) ≡ a
first_half a b h = ap (λ n. take n (a ++ b)) (sym h) ∙ take-append a b

second_half : (a b : List ℕ) → length a ≡ 16 → drop 16 (a ++ b) ≡ b
second_half a b h = ap (λ n. drop n (a ++ b)) (sym h) ∙ drop-append a b

-- The private key of 32 bytes, made within one second: whatever the buffer and the stack held, it is
-- determined by this second and two readings of the clock. What is encrypted is one block of 16
-- bytes twice, and the second halves of the key and of the start vector are its first half.
pub key_generator_lem :
    (c : Chance) (encrypt : List ℕ → List ℕ → List ℕ → List ℕ) (stack buf : List ℕ) (second : ℕ)
    → length stack ≡ 32
    → length buf ≡ 32
    → ((k : ℕ) → c.seconds k ≡ second)
    → let block = random_bytes (c.rand second) 16 0 in
      key_generator c encrypt stack buf
      ≡ some (
          encrypt
            (time_bytes (c.micros 0) ++ take 8 block)
            (time_bytes (c.micros 1) ++ take 8 block)
            (block ++ block))
unfolding key_generator
key_generator_lem c encrypt stack buf second hs hb at =
    let block = random_bytes (c.rand second) 16 0 in
    let key = time_bytes (c.micros 0) ++ take 8 block in
    let iv = time_bytes (c.micros 1) ++ take 8 block in
    let rounds : (length buf + (aes_keylen - 1)) / aes_keylen ≡ 2 = omega (arith, hb) in
    let whole : take 32 stack ≡ stack = take_all 32 stack (omega (arith, hs)) in
    ap₂ (λ n k. encrypted encrypt (key_rounds c n 0 buf k)) rounds whole
    ∙ ap (encrypted encrypt) (two_rounds c buf stack hb hs)
    ∙ ap₂ (λ k v. some (encrypt k v (plain_bytes c 0 ++ plain_bytes c 1)))
        (first_half (key_bytes c 0) (key_bytes c 1) (length-key_bytes c 0)
          ∙ key_bytes_at c 0 second (at 1))
        (second_half (key_bytes c 0) (key_bytes c 1) (length-key_bytes c 0)
          ∙ key_bytes_at c 1 second (at 3))
    ∙ ap₂
        (λ s s'.
          some (encrypt key iv (random_bytes (c.rand s) 16 0 ++ random_bytes (c.rand s') 16 0)))
        (at 0) (at 2)
