-- ===== src/Aes/Padding.antt =====
-- The padding and its removal.
use server_simple.Base.{
  ℕ, zero, suc, ◌+◌, ◌-◌, ◌%◌, ◌^◌, ◌≤◌, ◌<◌, ◌≡◌, refl, sym, ap, subst, ◌∙◌, ◌⊎◌, inl, inr, true,
  false, Bool-cases, if-cases, some, List, [], ◌∷◌, ◌++◌, leb, le→leb, lt→leb_false, ◌==◌, ==_iff,
  le_refl, length, length-append, length-replicate, take, drop, get_or, replicate, arith,
}
use server_simple.Aes.{
  padding_data_pkcs7, same_bytes, find_padding, un_padding_data_pkcs7, decrypt_data,
}
use server_simple.Aes.EndsWith.{EndsWith, same_bytes-all, same_bytes-found}

get_or-append : (xs ys : List ℕ) (k d : ℕ) → get_or (xs ++ ys) (length xs + k) d ≡ get_or ys k d
get_or-append [] ys k d = ap (λ n. get_or ys n d) {x = 0 + k} {y = k} (omega arith)
get_or-append (x ∷ xs) ys k d =
    ap (λ n. get_or (x ∷ (xs ++ ys)) n d) {x = suc (length xs) + k} {y = suc (length xs + k)}
      (omega arith)
    ∙ get_or-append xs ys k d

get_or-replicate : (n v k d : ℕ) → k < n → get_or (replicate n v) k d ≡ v
get_or-replicate zero v k d h = absurd (omega arith)
get_or-replicate (suc n) v zero d h = refl
get_or-replicate (suc n) v (suc k) d h = get_or-replicate n v k d (omega arith)

padded_EndsWith : (xs : List ℕ) (r : ℕ) → EndsWith (xs ++ replicate r r) r
padded_EndsWith xs r =
    let size : length (xs ++ replicate r r) ≡ length xs + r =
      length-append xs (replicate r r) ∙ ap (λ n. length xs + n) (length-replicate r r) in
    (
      omega (arith, size),
      λ j h.
          ap (λ n. get_or (xs ++ replicate r r) n 0) {y = length xs + (r - 1 - j)}
            (omega (arith, size, h))
          ∙ get_or-append xs (replicate r r) (r - 1 - j) 0
          ∙ get_or-replicate r r (r - 1 - j) 0 (omega (arith, h)),
    )

-- One test of the outer loop, as a fact on the buffer.
test_passes :
    (buf : List ℕ) (i : ℕ)
    → 0 < i
    → EndsWith buf i
    → ((get_or buf (length buf - 1) 0 == i) ≡ true) × ((same_bytes buf i i 0 == i) ≡ true)
test_passes buf i h ends = (
  (==_iff _ _).1 (
      ap (λ n. get_or buf n 0) {x = length buf - 1} {y = length buf - 1 - 0} (omega arith)
      ∙ ends.1 0 h),
  (==_iff _ _).1 (same_bytes-all buf i i 0 ends (omega arith)),
)

-- The loop finds the padding that is there.
find_padding-finds :
    (buf : List ℕ) (r left i : ℕ)
    → 0 < r
    → EndsWith buf r
    → i ≤ r
    → r < i + left
    → find_padding buf left i ≡ r
unfolding find_padding
find_padding-finds buf r zero i h ends low high = absurd (omega arith)
find_padding-finds buf r (suc left) i h ends low high =
    let (last_is, all) = test_passes buf r h ends in
    elim (Bool-cases (i == r)) [
      | inl here ↦
          let same : r ≡ i = sym ((==_iff _ _).0 here) in
          subst (λ m. find_padding buf (suc left) m ≡ r) same (rw (last_is, all) refl)
      | inr before ↦
          let last_is_not : (get_or buf (length buf - 1) 0 == i) ≡ false =
            ground (arith, last_is, before) in
          rw last_is_not (find_padding-finds buf r left (i + 1) h ends (ground arith) (omega arith))
    ]

-- The loop ends past its range, or with a padding.
abbrev Sound : List ℕ → ℕ → ℕ → ℕ → Type 0
Sound buf left i r = (r ≡ i + left) ⊎ ((i ≤ r) × (r < i + left) × EndsWith buf r)

later_Sound : (buf : List ℕ) (left i r : ℕ) → Sound buf left (i + 1) r → Sound buf (suc left) i r
later_Sound buf left i r (inl past) = inl (omega (arith, past))
later_Sound buf left i r (inr (low, high, ends)) = inr (omega arith, omega arith, ends)

found_EndsWith :
    (buf : List ℕ) (i : ℕ) → 0 < i → (same_bytes buf i i 0 == i) ≡ true → EndsWith buf i
found_EndsWith buf i h e =
    let found = same_bytes-found buf i i 0 (omega arith) ((==_iff _ _).0 e) in
    (
      omega (arith, (found (i - 1) (omega arith) (omega arith)).0),
      λ j small. (found j (omega arith) small).1,
    )

find_padding-Sound :
    (buf : List ℕ) (left i : ℕ) → 0 < i → Sound buf left i (find_padding buf left i)
unfolding find_padding
find_padding-Sound buf zero i h = inl (omega arith)
find_padding-Sound buf (suc left) i h =
    let later =
      later_Sound buf left i (find_padding buf left (i + 1))
        (find_padding-Sound buf left (i + 1) (omega arith)) in
    if-cases (Sound buf (suc left) i) (get_or buf (length buf - 1) 0 == i)
      (λ last_is.
        if-cases (Sound buf (suc left) i) (same_bytes buf i i 0 == i)
          (λ all. inr (le_refl i, omega arith, found_EndsWith buf i h all)) (λ other. later))
      (λ other. later)

-- `UnPaddingDataPKCS7` either finds no padding, and returns the whole length, or takes away `i` bytes,
-- between 1 and 16 and not more than there are, which are all `i`.
pub un_padding_data_pkcs7-EndsWith :
    (buf : List ℕ)
    → let r = un_padding_data_pkcs7 buf in
      (r ≡ length buf) ⊎ ((i : ℕ) × (0 < i) × (i ≤ 16) × EndsWith buf i × (r + i ≡ length buf))
unfolding un_padding_data_pkcs7
un_padding_data_pkcs7-EndsWith buf = elim (find_padding-Sound buf 16 1 (omega arith)) [
  | inl past ↦
      let over : leb (16 + 1) (find_padding buf 16 1) ≡ true = le→leb 17 _ (omega (arith, past)) in
      inl (rw over refl)
  | inr (low, high, ends) ↦
      let found : leb (16 + 1) (find_padding buf 16 1) ≡ false =
        lt→leb_false 17 _ (omega (arith, high)) in
      inr (find_padding buf 16 1, low, omega (arith, high), ends, rw found (omega (arith, ends.0)))
]

-- `PaddingDataPKCS7` makes a buffer, whose length it reports, of a multiple of 16 bytes, and
-- `UnPaddingDataPKCS7` gives back the length of what was padded, whatever its bytes.
pub un_padding_data_pkcs7-padding_data_pkcs7 :
    (buf : List ℕ)
    → length buf + 16 < 2 ^ 32
    → (padded : List ℕ) × (padding_data_pkcs7 true buf ≡ (some padded, length padded))
      × (length padded % 16 ≡ 0)
      × (0 < length padded)
      × (un_padding_data_pkcs7 padded ≡ length buf)
unfolding padding_data_pkcs7 un_padding_data_pkcs7
un_padding_data_pkcs7-padding_data_pkcs7 buf small =
    let r = 16 - length buf % 16 in
    let padded = buf ++ replicate r r in
    let size : length padded ≡ length buf + r =
      length-append buf (replicate r r) ∙ ap (λ n. length buf + n) (length-replicate r r) in
    let found : find_padding padded 16 1 ≡ r =
      find_padding-finds padded r 16 1 (omega arith) (padded_EndsWith buf r) (omega arith)
        (omega arith) in
    let inside : leb (16 + 1) (find_padding padded 16 1) ≡ false =
      lt→leb_false 17 _ (omega (arith, found)) in
    (
      padded,
      ap (λ (n : ℕ). (some padded, n)) {y = length padded} (omega (arith, size, small)),
      omega (arith, size),
      omega (arith, size),
      rw inside (omega (arith, found, size)),
    )

-- A cipher whose decryption undoes its encryption and keeps the length: `DecryptData` gives back
-- what was padded and encrypted, and its length.
pub decrypt_data_lem :
    (encrypt decrypt : List ℕ → List ℕ → List ℕ → List ℕ)
    → ((key iv m : List ℕ)
        → length m % 16 ≡ 0
        → (decrypt key iv (encrypt key iv m) ≡ m) × (length (encrypt key iv m) ≡ length m))
    → (aes_key buf : List ℕ) → length buf + 16 < 2 ^ 32
    → (padded : List ℕ) × (padding_data_pkcs7 true buf ≡ (some padded, length padded))
      × (decrypt_data decrypt aes_key (encrypt (take 16 aes_key) (drop 16 aes_key) padded)
          ≡ (length buf, padded))
unfolding decrypt_data
decrypt_data_lem encrypt decrypt law aes_key buf small =
    let (padded, e, blocks, some_block, back) =
      un_padding_data_pkcs7-padding_data_pkcs7 buf small in
    let (inverse, same) = law (take 16 aes_key) (drop 16 aes_key) padded blocks in
    let packet = encrypt (take 16 aes_key) (drop 16 aes_key) padded in
    let whole : (length packet % 16 == 0) ≡ true = ground (arith, same, blocks) in
    let nonempty : (length packet == 0) ≡ false = ground (arith, same, some_block) in
    (
      padded,
      e,
      simp (whole, nonempty)
          (ap (λ p. (un_padding_data_pkcs7 p, p)) inverse ∙ ap (λ (n : ℕ). (n, padded)) back),
    )
