-- ===== src/Registry/Abstract.antt =====
-- The table of notifications without the order in which the map keeps its entries.
pub mod Table
use server_simple.Base.{
  ℕ, ◌+◌, ◌≡◌, refl, sym, ap, ap₂, subst, ◌∙◌, inl, inr, arith, Bool, true, false, Bool-cases,
  Option, none, some, List, [], ◌∷◌, ltb, ◌==◌, if◌then◌else◌, length,
}
use server_simple.Notify.{Notify, Json, Built, new_notify, built, thrown, asserted, as_int}
use server_simple.Registry.{
  Registry, Call, blocked, crashed, returned, find, erase, insert_new, start_if_absent, start_user,
  start_notification, stop_found, stop_notification, user_index_name, Request, start, stop, perform,
  perform_all, ret_max_user,
}
use server_simple.Registry.Lookup.{find-erase-same, find-erase-other, erase-absent}
use server_simple.Registry.Valid.{Distinct, IsValid, perform-IsValid}

-- The same entries and the same state of the mutex; the deleted objects are left out.
pub record Same (r s : Registry) : Type 0 where
  pub locked : r.locked ≡ s.locked
  pub limit : r.limit ≡ s.limit
  pub size : length r.handles ≡ length s.handles
  pub entries : (key : ℕ) → find key r.handles ≡ find key s.handles

abbrev pub present : Option Notify → ℕ
present none = 0
present (some n) = 1

pub length-erase-Distinct :
    (id : ℕ) (handles : List (ℕ × Notify))
    → Distinct handles
    → length (erase id handles) + present (find id handles) ≡ length handles
unfolding erase find
length-erase-Distinct id [] d = refl
length-erase-Distinct id ((k, n) ∷ handles) (fresh, d) = elim (Bool-cases (k == id)) [
  | inl gone ↦
      let absent : find id handles ≡ none =
        ap (λ i. find i handles) {x = id} {y = k} (ground arith) ∙ fresh in
      rw (gone, ap length (erase-absent id handles absent)) (omega arith)
  | inr kept ↦ rw kept (omega (arith, length-erase-Distinct id handles d))
]

find-erase :
    (id key : ℕ) (handles : List (ℕ × Notify))
    → find key (erase id handles) ≡ (if key == id then none else find key handles)
find-erase id key handles = elim (Bool-cases (key == id)) [
  | inl same ↦ rw same (
      ap (λ k. find k (erase id handles)) {x = key} {y = id} (ground arith)
      ∙ find-erase-same id handles)
  | inr other ↦ rw other (find-erase-other id key handles (ground arith))
]

erase-Same :
    (r s : Registry) (id : ℕ) (dr ds : List Notify)
    → IsValid r
    → IsValid s
    → Same r s
    → Same
        (record r { handles = erase id r.handles; deleted = dr })
        (record s { handles = erase id s.handles; deleted = ds })
erase-Same r s id dr ds vr vs h = record {
  locked = h.locked;
  limit = h.limit;
  size = omega (
    arith,
    length-erase-Distinct id r.handles vr.distinct,
    length-erase-Distinct id s.handles vs.distinct,
    ap present (h.entries id),
    h.size,
  );
  entries = λ key.
      find-erase id key r.handles
      ∙ ap (λ o. if key == id then none else o) (h.entries key)
      ∙ sym (find-erase id key s.handles);
}

abbrev pub Agree : Call × Registry → Call × Registry → Type 0
Agree a b = (a.0 ≡ b.0) × Same a.1 b.1

if-Agree :
    (b c : Bool) (x x' y y' : Call × Registry)
    → b ≡ c
    → Agree x x'
    → Agree y y'
    → Agree (if b then x else y) (if c then x' else y')
if-Agree true c x x' y y' e p q = subst (λ k. Agree x (if k then x' else y')) e p
if-Agree false c x x' y y' e p q = subst (λ k. Agree y (if k then x' else y')) e q

module _ (r s : Registry) (vr : IsValid r) (vs : IsValid s) (h : Same r s) where
  insert_new-Agree : (id : ℕ) (b : Built) → Agree (insert_new r id b) (insert_new s id b)
  unfolding insert_new find
  insert_new-Agree id (built n) = (
    refl,
    record {
      locked = h.locked;
      limit = h.limit;
      size = omega (arith, h.size);
      entries = λ key. ap (λ o. if id == key then some n else o) (h.entries key);
    },
  )
  insert_new-Agree id thrown = (refl, erase-Same r s id r.deleted s.deleted vr vs h)
  insert_new-Agree id asserted = (refl, h)

  start_if_absent-Agree :
      (json : Json) (started : Bool) (id : ℕ) (o : Option Notify)
      → Agree (start_if_absent r json started id o) (start_if_absent s json started id o)
  unfolding start_if_absent
  start_if_absent-Agree json started id none = insert_new-Agree id (new_notify json started)
  start_if_absent-Agree json started id (some n) = (refl, h)

  start_user-Agree :
      (json : Json) (started : Bool) (o : Option ℕ)
      → Agree (start_user r json started o) (start_user s json started o)
  unfolding start_user
  start_user-Agree json started none = (refl, h)
  start_user-Agree json started (some id) =
      subst
        (λ o.
          Agree (start_if_absent r json started id (find id r.handles))
            (start_if_absent s json started id o))
        (h.entries id) (start_if_absent-Agree json started id (find id r.handles))

  stop_found-Same : (id : ℕ) (o : Option Notify) → Same (stop_found r id o) (stop_found s id o)
  unfolding stop_found
  stop_found-Same id none = h
  stop_found-Same id (some n) = erase-Same r s id _ _ vr vs h

  full-Same : Same (record r { locked = true }) (record s { locked = true })
  full-Same = record { locked = refl; limit = h.limit; size = h.size; entries = h.entries }

  pub perform-Agree : (q : Request) → Agree (perform r q) (perform s q)
  unfolding start_notification stop_notification
  perform-Agree (start json started) =
      if-Agree r.locked s.locked _ _ _ _ h.locked (refl, h)
        (if-Agree _ _ _ _ _ _ (ap₂ ltb h.limit h.size) (refl, full-Same)
          (if-Agree json.is_object json.is_object _ _ _ _ refl
            (start_user-Agree json started (as_int (json.member user_index_name))) (refl, h)))
  perform-Agree (stop id) =
      if-Agree r.locked s.locked _ _ _ _ h.locked (refl, h)
        (
          refl,
          subst (λ o. Same (stop_found r id (find id r.handles)) (stop_found s id o)) (h.entries id)
              (stop_found-Same id (find id r.handles)),
        )

-- Two well-formed tables with the same entries, in whatever order: any calls, one after the other,
-- have the same results on both, and leave tables with the same entries.
pub perform_all-Same :
    (r s : Registry) (qs : List Request)
    → IsValid r
    → IsValid s
    → Same r s
    → ((perform_all r qs).0 ≡ (perform_all s qs).0) × Same (perform_all r qs).1 (perform_all s qs).1
perform_all-Same r s [] vr vs h = (refl, h)
perform_all-Same r s (q ∷ qs) vr vs h =
    let (call, same) = perform-Agree r s vr vs h q in
    let (calls, rest) =
      perform_all-Same (perform r q).1 (perform s q).1 qs (perform-IsValid r q vr)
        (perform-IsValid s q vs) same in
    (ap₂ (λ c cs. c ∷ cs) call calls, rest)
