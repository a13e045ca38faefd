-- ===== src/Aes/EndsWith.antt =====
-- The last bytes of a buffer, and the inner loop of `UnPaddingDataPKCS7`.
use server_simple.Base.{
  ℕ, zero, suc, ◌+◌, ◌-◌, ◌≤◌, ◌<◌, ◌≡◌, refl, sym, ap, subst, ◌∙◌, inl, inr, Bool, true, false,
  not, ◌||◌, Bool-cases, List, leb, leb→le, ◌==◌, ==_iff, if◌then◌else◌, length, get_or, arith,
}
use server_simple.Aes.{same_bytes}

-- The last `i` bytes are `i`.
abbrev pub EndsWith : List ℕ → ℕ → Type 0
EndsWith buf i = (i ≤ length buf) × ((j : ℕ) → j < i → get_or buf (length buf - 1 - j) 0 ≡ i)

-- The loops agree with this.
pub same_bytes-all :
    (buf : List ℕ) (i left j : ℕ) → EndsWith buf i → j + left ≡ i → same_bytes buf i left j ≡ i
unfolding same_bytes
same_bytes-all buf i zero j (long, same) e = omega (arith, e)
same_bytes-all buf i (suc left) j (long, same) e =
    let in_range : leb (j + 1) (length buf) ≡ true = ground (arith, e, long) in
    let equal : (get_or buf (length buf - 1 - j) 0 == i) ≡ true =
      (==_iff _ _).1 (same j (omega (arith, e))) in
    simp (in_range, equal) (same_bytes-all buf i left (j + 1) (long, same) (omega (arith, e)))

both : (a b : Bool) → (not a || not b) ≡ false → (a ≡ true) × (b ≡ true)
both true true e = (refl, refl)
both true false e = cc
both false b e = cc

pub same_bytes-found :
    (buf : List ℕ) (i left j : ℕ)
    → j + left ≡ i
    → same_bytes buf i left j ≡ i
    → (k : ℕ) → j ≤ k
    → k < i
    → (k < length buf) × (get_or buf (length buf - 1 - k) 0 ≡ i)
unfolding same_bytes
same_bytes-found buf i zero j e full k h h' = absurd (omega arith)
same_bytes-found buf i (suc left) j e full k h h' =
    let in_range = leb (j + 1) (length buf) in
    let equal = get_or buf (length buf - 1 - j) 0 == i in
    elim (Bool-cases (not in_range || not equal)) [
      | inl stopped ↦
          let here : j ≡ i =
            sym (ap (λ b. if b then j else same_bytes buf i left (j + 1)) stopped) ∙ full in
          absurd (omega (arith, here, e))
      | inr went_on ↦
          let later : same_bytes buf i left (j + 1) ≡ i =
            sym (ap (λ b. if b then j else same_bytes buf i left (j + 1)) went_on) ∙ full in
          let (long, same) = both in_range equal went_on in
          elim (Bool-cases (j == k)) [
            | inl at_k ↦
                let same_k : j ≡ k = (==_iff _ _).0 at_k in
                subst (λ m. (m < length buf) × (get_or buf (length buf - 1 - m) 0 ≡ i)) same_k
                  (omega (arith, leb→le _ _ long), (==_iff _ _).0 same)
            | inr beyond ↦
                same_bytes-found buf i left (j + 1) (omega (arith, e)) later k (ground arith) h'
          ]
    ]
