-- ===== src/Registry/Valid.antt =====
-- The invariant of the table of notifications.
use server_simple.Base.{
  ℕ, ◌+◌, ◌≤◌, ◌≡◌, refl, sym, ap, ◌∙◌, inl, inr, arith, Bool, true, Bool-cases, Option, none, some,
  List, [], ◌∷◌, ltb, ltb→le, ◌==◌, if◌then◌else◌, length,
}
use server_simple.Notify.{Notify, Json, Built, new_notify, built, thrown, asserted, as_int}
use server_simple.Registry.{
  Registry, Call, find, erase, insert_new, start_if_absent, start_user, start_notification,
  stop_found, stop_notification, user_index_name, Request, start, stop, perform, perform_all,
}

-- Every key occurs once.
abbrev pub Distinct : List (ℕ × Notify) → Type 0
Distinct [] = Unit {0}
Distinct ((k, n) ∷ handles) = (find k handles ≡ none) × Distinct handles

pub record IsValid (reg : Registry) : Type 0 where
  pub distinct : Distinct reg.handles
  pub bounded : length reg.handles ≤ reg.limit + 1

length-erase : (id : ℕ) (handles : List (ℕ × Notify)) → length (erase id handles) ≤ length handles
unfolding erase
length-erase id [] = omega arith
length-erase id ((k, n) ∷ handles) = elim (Bool-cases (k == id)) [
  | inl same ↦ rw same (omega (arith, length-erase id handles))
  | inr other ↦ rw other (omega (arith, length-erase id handles))
]

find-erase :
    (id key : ℕ) (handles : List (ℕ × Notify))
    → find key handles ≡ none
    → find key (erase id handles) ≡ none
unfolding find erase
find-erase id key [] h = refl
find-erase id key ((k, n) ∷ handles) h = elim (Bool-cases (k == key)) [
  | inl here ↦
      let found : ◌≡◌ {A = Option Notify} (some n) none =
        sym (ap (λ b. if b then some n else find key handles) here) ∙ h in
      cc
  | inr there ↦
      let later =
        find-erase id key handles
          (sym (ap (λ b. if b then some n else find key handles) there) ∙ h) in
      elim (Bool-cases (k == id)) [ inl gone ↦ rw gone later | inr kept ↦ rw (kept, there) later ]
]

erase-Distinct :
    (id : ℕ) (handles : List (ℕ × Notify)) → Distinct handles → Distinct (erase id handles)
unfolding erase
erase-Distinct id [] d = d
erase-Distinct id ((k, n) ∷ handles) (fresh, d) = elim (Bool-cases (k == id)) [
  | inl gone ↦ rw gone (erase-Distinct id handles d)
  | inr kept ↦ rw kept (find-erase id k handles fresh, erase-Distinct id handles d)
]

erase-IsValid :
    (reg : Registry) (id : ℕ) (deleted : List Notify)
    → IsValid reg
    → IsValid (record reg { handles = erase id reg.handles; deleted = deleted })
erase-IsValid reg id deleted v = record {
  distinct = erase-Distinct id reg.handles v.distinct;
  bounded = omega (arith, v.bounded, length-erase id reg.handles);
}

module _ (reg : Registry) (json : Json) (started : Bool) (v : IsValid reg)
    (room : length reg.handles ≤ reg.limit) where
  insert_new-IsValid :
      (id : ℕ) (b : Built) → find id reg.handles ≡ none → IsValid (insert_new reg id b).1
  unfolding insert_new
  insert_new-IsValid id (built n) absent = record {
    distinct = (absent, v.distinct);
    bounded = omega (arith, room);
  }
  insert_new-IsValid id thrown absent = erase-IsValid reg id reg.deleted v
  insert_new-IsValid id asserted absent = v

  start_if_absent-IsValid :
      (id : ℕ) (o : Option Notify)
      → find id reg.handles ≡ o
      → IsValid (start_if_absent reg json started id o).1
  unfolding start_if_absent
  start_if_absent-IsValid id none e = insert_new-IsValid id (new_notify json started) e
  start_if_absent-IsValid id (some n) e = v

  start_user-IsValid : (o : Option ℕ) → IsValid (start_user reg json started o).1
  unfolding start_user
  start_user-IsValid none = v
  start_user-IsValid (some id) = start_if_absent-IsValid id (find id reg.handles) refl

  body-IsValid :
      IsValid
        (if json.is_object
          then start_user reg json started (as_int (json.member user_index_name))
          else (Call.crashed, reg)).1
  body-IsValid = elim (Bool-cases json.is_object) [
    | inl object ↦ simp object (start_user-IsValid (as_int (json.member user_index_name)))
    | inr not_object ↦ simp not_object v
  ]

locked-IsValid : (reg : Registry) → IsValid reg → IsValid (record reg { locked = true })
locked-IsValid reg v = record { distinct = v.distinct; bounded = v.bounded }

stop_found-IsValid :
    (reg : Registry) (id : ℕ) (o : Option Notify) → IsValid reg → IsValid (stop_found reg id o)
unfolding stop_found
stop_found-IsValid reg id none v = v
stop_found-IsValid reg id (some n) v = erase-IsValid reg id _ v

pub perform-IsValid : (reg : Registry) (r : Request) → IsValid reg → IsValid (perform reg r).1
unfolding start_notification stop_notification
perform-IsValid reg (start json started) v = elim (Bool-cases reg.locked) [
  | inl busy ↦ simp busy v
  | inr free ↦ simp free (elim (Bool-cases (ltb reg.limit (length reg.handles))) [
    | inl full ↦ simp full (locked-IsValid reg v)
    | inr small ↦ simp small (body-IsValid reg json started v (ltb→le _ _ small))
  ])
]
perform-IsValid reg (stop id) v = elim (Bool-cases reg.locked) [
  | inl busy ↦ simp busy v
  | inr free ↦ simp free (stop_found-IsValid reg id _ v)
]

-- Any calls keep the table well formed: every user has at most one notification, and there is at
-- most one notification more than the limit allows.
pub perform_all-IsValid :
    (reg : Registry) (rs : List Request) → IsValid reg → IsValid (perform_all reg rs).1
perform_all-IsValid reg [] v = v
perform_all-IsValid reg (r ∷ rs) v =
    perform_all-IsValid (perform reg r).1 rs (perform-IsValid reg r v)
