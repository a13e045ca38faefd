-- ===== src/Registry/Lookup.antt =====
-- Looking a key up after another one was erased.
use server_simple.Base.{
  ℕ, ◌≡◌, ◌≢◌, refl, sym, ap, ◌∙◌, inl, inr, arith, Bool-cases, false, Option, none, some, List, [],
  ◌∷◌, ◌==◌, if◌then◌else◌,
}
use server_simple.Registry.{find, erase}

module _ {ℓ} {A : Type ℓ} where
  pub find-erase-same : (id : ℕ) (handles : List (ℕ × A)) → find id (erase id handles) ≡ none
  unfolding find erase
  find-erase-same id [] = refl
  find-erase-same id ((k, n) ∷ handles) = elim (Bool-cases (k == id)) [
    | inl same ↦ rw same (find-erase-same id handles)
    | inr other ↦ rw (other, other) (find-erase-same id handles)
  ]

  pub find-erase-other :
      (id key : ℕ) (handles : List (ℕ × A))
      → key ≢ id
      → find key (erase id handles) ≡ find key handles
  unfolding find erase
  find-erase-other id key [] h = refl
  find-erase-other id key ((k, n) ∷ handles) h = elim (Bool-cases (k == id)) [
    | inl same ↦
        let differs : (k == key) ≡ false = ground arith in
        rw (same, differs) (find-erase-other id key handles h)
    | inr other ↦
        rw other (ap (λ o. if k == key then some n else o) (find-erase-other id key handles h))
  ]

  -- Erasing an absent key changes nothing.
  pub erase-absent :
      (id : ℕ) (handles : List (ℕ × A)) → find id handles ≡ none → erase id handles ≡ handles
  unfolding find erase
  erase-absent id [] h = refl
  erase-absent id ((k, n) ∷ handles) h = elim (Bool-cases (k == id)) [
    | inl same ↦
        let here : ◌≡◌ {A = Option A} (some n) none =
          sym (ap (λ b. if b then some n else find id handles) same) ∙ h in
        cc
    | inr other ↦ rw other (
        ap (◌∷◌ (k, n)) (
          erase-absent id handles
            (sym (ap (λ b. if b then some n else find id handles) other) ∙ h)))
  ]

  -- What is still found is another key's.
  pub find-erase-some :
      (id key : ℕ) (handles : List (ℕ × A)) (a : A)
      → find key (erase id handles) ≡ some a
      → (key ≢ id) × (find key handles ≡ some a)
  find-erase-some id key handles a e = elim (Bool-cases (key == id)) [
    | inl same ↦
        let gone : find key (erase id handles) ≡ none =
          ap (λ k. find k (erase id handles)) {x = key} {y = id} (ground arith)
          ∙ find-erase-same id handles in
        cc
    | inr other ↦
        let differs : key ≢ id = ground arith in
        (differs, sym (find-erase-other id key handles differs) ∙ e)
  ]
