-- ===== src/Notify/Database/Decimal.antt =====
-- The numbers in the queries and in the names of messages.
use server_simple.Base.{
  ℕ, zero, suc, ◌+◌, ◌-◌, ◌*◌, ◌/◌, ◌%◌, ◌^◌, ◌≤◌, ◌<◌, ◌≡◌, refl, ap, ◌∙◌, arith, ◌⊎◌, false, inl,
  inr, if-cases, Bool-cases, ==_iff, ltb, ltb→le, ◌==◌, List, [], ◌∷◌, ◌++◌, length, length-append,
  if◌then◌else◌,
}
use server_simple.Notify.{to_string, decimal}
use server_simple.Notify.Database.{print_int}

-- The number that digits stand for, after a number `before`.
abbrev pub value : ℕ → List ℕ → ℕ
value before [] = before
value before (d ∷ ds) = value (before * 10 + (d - 48)) ds

value-append : (a : ℕ) (xs ys : List ℕ) → value a (xs ++ ys) ≡ value (value a xs) ys
value-append a [] ys = refl
value-append a (x ∷ xs) ys = value-append (a * 10 + (x - 48)) xs ys

value-decimal : (fuel n : ℕ) → n < 10 ^ fuel → value 0 (decimal fuel n) ≡ n
unfolding decimal
value-decimal zero n h = omega (arith, h)
value-decimal (suc fuel) n h = elim (Bool-cases (n == 0)) [
  | inl nothing ↦ rw nothing (ground arith)
  | inr something ↦ rw something (
      value-append 0 (decimal fuel (n / 10)) ((48 + n % 10) ∷ [])
      ∙ omega (arith, value-decimal fuel (n / 10) (omega (arith, h))))
]

length-decimal : (fuel n : ℕ) → length (decimal fuel n) ≤ fuel
unfolding decimal
length-decimal zero n = omega arith
length-decimal (suc fuel) n =
    if-cases (λ (ds : List ℕ). length ds ≤ suc fuel) (n == 0) (λ h. omega arith)
      (λ h. omega (
        arith,
        length-append (decimal fuel (n / 10)) ((48 + n % 10) ∷ []),
        length-decimal fuel (n / 10),
      ))

to_string-cases : (n : ℕ) → ((n ≡ 0) × (to_string n ≡ 48 ∷ [])) ⊎ (to_string n ≡ decimal 10 n)
unfolding to_string
to_string-cases n = elim (Bool-cases (n == 0)) [
  | inl nothing ↦ inl ((==_iff n 0).0 nothing, rw nothing refl)
  | inr something ↦ inr (rw something refl)
]

value-to_string : (n : ℕ) → n < 2 ^ 32 → value 0 (to_string n) ≡ n
value-to_string n h = elim (to_string-cases n) [
  | inl (nothing, e) ↦ ap (value 0) e ∙ omega (arith, nothing)
  | inr e ↦ ap (value 0) e ∙ value-decimal 10 n (omega (arith, h))
]

pub length-to_string : (n : ℕ) → length (to_string n) ≤ 10
length-to_string n = elim (to_string-cases n) [
  | inl (nothing, e) ↦ omega (arith, ap length e)
  | inr e ↦ omega (arith, ap length e, length-decimal 10 n)
]

abbrev Digits : List ℕ → Type 0
Digits [] = Unit {0}
Digits (d ∷ ds) = (48 ≤ d) × Digits ds

Digits-append : (xs ys : List ℕ) → Digits xs → Digits ys → Digits (xs ++ ys)
Digits-append [] ys p q = q
Digits-append (x ∷ xs) ys (d, p) q = (d, Digits-append xs ys p q)

decimal-Digits : (fuel n : ℕ) → Digits (decimal fuel n)
unfolding decimal
decimal-Digits zero n = tt
decimal-Digits (suc fuel) n =
    if-cases Digits (n == 0) (λ h. tt)
      (λ h.
        Digits-append (decimal fuel (n / 10)) ((48 + n % 10) ∷ []) (decimal-Digits fuel (n / 10))
          (omega arith, tt))

to_string-Digits : (n : ℕ) → Digits (to_string n)
unfolding to_string
to_string-Digits n = if-cases Digits (n == 0) (λ h. (omega arith, tt)) (λ h. decimal-Digits 10 n)

-- What MySQL reads: a `-` stands in front of a negative number, here given by its 32 bits.
abbrev pub read_int : List ℕ → ℕ
read_int [] = 0
read_int (d ∷ ds) = if d == 45 then 2 ^ 32 - value 0 ds else value 0 (d ∷ ds)

read_int-Digits : (ds : List ℕ) → Digits ds → read_int ds ≡ value 0 ds
read_int-Digits [] p = refl
read_int-Digits (d ∷ ds) (h, p) = let digit : (d == 45) ≡ false = ground arith in simp digit refl

-- Every int is printed so that it is read back as what it was.
pub read_int-print_int : (bits : ℕ) → bits < 2 ^ 32 → read_int (print_int bits) ≡ bits
read_int-print_int bits h =
    if-cases (λ (ds : List ℕ). read_int ds ≡ bits) (ltb bits (2 ^ 31))
      (λ small. read_int-Digits (to_string bits) (to_string-Digits bits) ∙ value-to_string bits h)
      (λ large.
        let low = ltb→le bits (2 ^ 31) large in
        omega (arith, value-to_string (2 ^ 32 - bits) (omega arith)))

pub length-print_int : (bits : ℕ) → length (print_int bits) ≤ 11
length-print_int bits =
    if-cases (λ (ds : List ℕ). length ds ≤ 11) (ltb bits (2 ^ 31))
      (λ h. omega (arith, length-to_string bits))
      (λ h. omega (arith, length-to_string (2 ^ 32 - bits)))
