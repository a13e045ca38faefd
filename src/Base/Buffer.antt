-- ===== src/Base/Buffer.antt =====
-- A C buffer as the list of its bytes: `memcpy` into it, and reads at a position.
use Prim.Native.Nat.{ℕ, zero, suc, ◌+◌, ◌≤◌, ◌<◌}
use mathlib.Core.Path.{◌≡◌, refl, ap, sym, ◌∙◌}
use mathlib.Core.List.{List, [], ◌∷◌, ◌++◌}
use native.Mathlib.Omega.{arith}
use server_simple.Base.Lists.{length, take, drop, length-take, get_or, get_elem?}
use mathlib.Core.Option.{some}

module _ {ℓ} {A : Type ℓ} where
  -- `memcpy(buff + pos, src, n)`, `src` being the `n` bytes. A byte past the end is not stored.
  abbrev pub write_at : List A → ℕ → List A → List A
  write_at [] pos src = []
  write_at (x ∷ xs) (suc pos) src = x ∷ write_at xs pos src
  write_at (x ∷ xs) zero [] = x ∷ xs
  write_at (x ∷ xs) zero (b ∷ src) = b ∷ write_at xs zero src

  -- `n` bytes from `buff + pos`.
  abbrev pub slice : List A → ℕ → ℕ → List A
  slice buff pos n = take n (drop pos buff)

  pub length-write_at :
      (buff : List A) (pos : ℕ) (src : List A) → length (write_at buff pos src) ≡ length buff
  length-write_at [] pos src = refl
  length-write_at (x ∷ xs) (suc pos) src = ap suc (length-write_at xs pos src)
  length-write_at (x ∷ xs) zero [] = refl
  length-write_at (x ∷ xs) zero (b ∷ src) = ap suc (length-write_at xs zero src)

  -- What stands before the position stays.
  pub take-write_at :
      (n : ℕ) (buff : List A) (pos : ℕ) (src : List A)
      → n ≤ pos
      → take n (write_at buff pos src) ≡ take n buff
  take-write_at zero buff pos src h = refl
  take-write_at (suc n) [] pos src h = refl
  take-write_at (suc n) (x ∷ xs) (suc pos) src h =
      ap (◌∷◌ x) (take-write_at n xs pos src (omega arith))
  take-write_at (suc n) (x ∷ xs) zero src h = absurd (omega arith)

  -- Within the buffer the bytes are appended to what stands before the position.
  pub take-write_at_end :
      (buff : List A) (pos : ℕ) (src : List A) (n : ℕ)
      → pos + length src ≤ length buff
      → n ≡ pos + length src
      → take n (write_at buff pos src) ≡ take pos buff ++ src
  take-write_at_end buff zero [] zero h e = refl
  take-write_at_end buff zero [] (suc n) h e = absurd (omega arith)
  take-write_at_end [] (suc pos) src n h e = absurd (omega arith)
  take-write_at_end [] zero (b ∷ src) n h e = absurd (omega arith)
  take-write_at_end (x ∷ xs) zero (b ∷ src) zero h e = absurd (omega arith)
  take-write_at_end (x ∷ xs) zero (b ∷ src) (suc n) h e =
      ap (◌∷◌ b) (take-write_at_end xs zero src n (omega arith) (omega arith))
  take-write_at_end (x ∷ xs) (suc pos) src zero h e = absurd (omega arith)
  take-write_at_end (x ∷ xs) (suc pos) src (suc n) h e =
      ap (◌∷◌ x) (take-write_at_end xs pos src n (omega arith) (omega arith))

  -- Reading back what was written.
  pub slice-write_at :
      (buff : List A) (pos : ℕ) (src : List A)
      → pos + length src ≤ length buff
      → slice (write_at buff pos src) pos (length src) ≡ src
  slice-write_at buff pos [] h = refl
  slice-write_at [] zero (b ∷ src) h = absurd (omega arith)
  slice-write_at [] (suc pos) (b ∷ src) h = absurd (omega arith)
  slice-write_at (x ∷ xs) zero (b ∷ src) h = ap (◌∷◌ b) (slice-write_at xs zero src (omega arith))
  slice-write_at (x ∷ xs) (suc pos) (b ∷ src) h = slice-write_at xs pos (b ∷ src) (omega arith)

  -- Two writes in a row are one write of both.
  pub write_at-append :
      (buff : List A) (pos : ℕ) (xs ys : List A) (n : ℕ)
      → n ≡ pos + length xs
      → pos + length xs ≤ length buff
      → write_at (write_at buff pos xs) n ys ≡ write_at buff pos (xs ++ ys)
  write_at-append [] pos xs ys n e h = refl
  write_at-append (b ∷ buff) (suc pos) xs ys zero e h = absurd (omega arith)
  write_at-append (b ∷ buff) (suc pos) xs ys (suc n) e h =
      ap (◌∷◌ b) (write_at-append buff pos xs ys n (omega arith) (omega arith))
  write_at-append (b ∷ buff) zero [] ys zero e h = refl
  write_at-append (b ∷ buff) zero [] ys (suc n) e h = absurd (omega arith)
  write_at-append (b ∷ buff) zero (x ∷ xs) ys zero e h = absurd (omega arith)
  write_at-append (b ∷ buff) zero (x ∷ xs) ys (suc n) e h =
      ap (◌∷◌ x) (write_at-append buff zero xs ys n (omega arith) (omega arith))

  take-add : (m n k : ℕ) (xs : List A) → k ≡ m + n → take k xs ≡ take m xs ++ take n (drop m xs)
  take-add zero n k xs e = ap (λ i. take i xs) (omega arith)
  take-add (suc m) n zero xs e = absurd (omega arith)
  take-add (suc m) zero (suc k) [] e = refl
  take-add (suc m) (suc n) (suc k) [] e = refl
  take-add (suc m) n (suc k) (x ∷ xs) e = ap (◌∷◌ x) (take-add m n k xs (omega arith))

  pub drop-drop : (p m q : ℕ) (xs : List A) → q ≡ p + m → drop q xs ≡ drop m (drop p xs)
  drop-drop zero m q xs e = ap (λ i. drop i xs) (omega arith)
  drop-drop (suc p) m zero xs e = absurd (omega arith)
  drop-drop (suc p) zero (suc q) [] e = refl
  drop-drop (suc p) (suc m) (suc q) [] e = refl
  drop-drop (suc p) m (suc q) (x ∷ xs) e = drop-drop p m q xs (omega arith)

  -- A slice is cut in two.
  pub slice-add :
      (xs : List A) (p m n q k : ℕ)
      → q ≡ p + m
      → k ≡ m + n
      → slice xs p k ≡ slice xs p m ++ slice xs q n
  slice-add xs p m n q k e f =
      take-add m n k (drop p xs) f
      ∙ ap (λ ys. take m (drop p xs) ++ take n ys) (sym (drop-drop p m q xs e))

  pub slice_zero : (xs : List A) (p n : ℕ) → n ≡ 0 → slice xs p n ≡ []
  slice_zero xs p n e = ap (slice xs p) e

  pub length-slice : (xs : List A) (p n : ℕ) → length (slice xs p n) ≤ n
  length-slice xs p n = omega (arith, length-take n (drop p xs))

  pub nil_of_length : (xs : List A) → length xs ≡ 0 → xs ≡ []
  nil_of_length [] e = refl
  nil_of_length (x ∷ xs) e = absurd (omega arith)

  -- Single bytes of what was written at the start.
  pub get_or-write_at :
      (buff src : List A) (i : ℕ) (d : A)
      → length src ≤ length buff
      → i < length src
      → get_or (write_at buff 0 src) i d ≡ get_or src i d
  get_or-write_at buff [] i d h lt = absurd (omega arith)
  get_or-write_at [] (b ∷ src) i d h lt = absurd (omega arith)
  get_or-write_at (x ∷ buff) (b ∷ src) zero d h lt = refl
  get_or-write_at (x ∷ buff) (b ∷ src) (suc i) d h lt =
      get_or-write_at buff src i d (omega arith) (omega arith)

  pub get_elem?-write_at :
      (buff : List A) (i : ℕ) (b : A)
      → i < length buff
      → get_elem? (write_at buff i (b ∷ [])) i ≡ some b
  get_elem?-write_at [] i b h = absurd (omega arith)
  get_elem?-write_at (x ∷ buff) zero b h = refl
  get_elem?-write_at (x ∷ buff) (suc i) b h = get_elem?-write_at buff i b (omega arith)

-- One element written inside a list.
pub write_at-one {ℓ} :
    {A : Type ℓ}
    → (xs : List A) (n : ℕ) (v : A) → n < length xs
    → write_at xs n (v ∷ []) ≡ take n xs ++ (v ∷ drop (suc n) xs)
write_at-one [] n v h = absurd (omega arith)
write_at-one (x ∷ []) zero v h = refl
write_at-one (x ∷ y ∷ xs) zero v h = refl
write_at-one (x ∷ xs) (suc n) v h = ap (◌∷◌ x) (write_at-one xs n v (omega arith))

-- What a write inside a buffer leaves.
pub write_at_inside {ℓ} :
    {A : Type ℓ}
    → (xs : List A) (pos : ℕ) (src : List A) (n : ℕ) → n ≡ pos + length src
    → n ≤ length xs
    → write_at xs pos src ≡ take pos xs ++ (src ++ drop n xs)
write_at_inside [] zero [] zero e h = refl
write_at_inside [] zero [] (suc n) e h = absurd (omega arith)
write_at_inside [] zero (b ∷ src) n e h = absurd (omega arith)
write_at_inside [] (suc pos) src n e h = absurd (omega arith)
write_at_inside (x ∷ xs) (suc pos) src zero e h = absurd (omega arith)
write_at_inside (x ∷ xs) (suc pos) src (suc n) e h =
    ap (◌∷◌ x) (write_at_inside xs pos src n (omega arith) (omega arith))
write_at_inside (x ∷ xs) zero [] zero e h = refl
write_at_inside (x ∷ xs) zero [] (suc n) e h = absurd (omega arith)
write_at_inside (x ∷ xs) zero (b ∷ src) zero e h = absurd (omega arith)
write_at_inside (x ∷ xs) zero (b ∷ src) (suc n) e h =
    ap (◌∷◌ b) (write_at_inside xs zero src n (omega arith) (omega arith))
