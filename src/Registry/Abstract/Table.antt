-- ===== src/Registry/Abstract/Table.antt =====
-- The table as an abstract type: well-formed tables up to the order of their entries.
use mathlib.Core.Quot
use mathlib.Core.Quot.{Quot, Quot-set}
use server_simple.Base.{
  ℕ, ◌+◌, ◌≡◌, refl, sym, ap, ap₂, subst, ◌∙◌, inl, inr, arith, Bool-cases, true, false, Option,
  none, some, List, [], ◌∷◌, ◌==◌, if◌then◌else◌, length,
}
use server_simple.Notify.{Notify}
use server_simple.Registry.{
  Registry, Call, returned, Request, stop, stop_found, stop_notification, perform_all, find,
}
use server_simple.Registry.Map.{stop_notification_lem}
use server_simple.Registry.Valid.{IsValid, perform-IsValid, perform_all-IsValid}
use server_simple.Registry.Abstract.{Same, present, length-erase-Distinct, perform_all-Same}

abbrev pub Valid : Type 0
Valid = (r : Registry) × IsValid r

abbrev pub Table : Type 0
Table = Quot {α = Valid} (λ a b. Same a.0 b.0)

pub Table_set : IsSet Table
Table_set = Quot-set

abbrev pub after : List Request → Valid → Valid
after qs (r, v) = ((perform_all r qs).1, perform_all-IsValid r qs v)

abbrev pub table_after : List Request → Table → Table
table_after qs =
    Quot.lift Table_set (λ a. Quot.mk (after qs a))
      (λ a b h. Quot.sound (perform_all-Same a.0 b.0 qs a.1 b.1 h).1)

pub Calls_set : IsSet (List Call)
Calls_set = hlevel

abbrev pub calls : List Request → Table → List Call
calls qs =
    Quot.lift Calls_set (λ a. (perform_all a.0 qs).0)
      (λ a b h. (perform_all-Same a.0 b.0 qs a.1 b.1 h).0)

stop_found-size :
    (r : Registry) (id : ℕ) (o : Option Notify)
    → IsValid r
    → find id r.handles ≡ o
    → (length (stop_found r id o).handles + present o ≡ length r.handles)
      × ((stop_found r id o).limit ≡ r.limit)
unfolding stop_found
stop_found-size r id none v e = (omega arith, refl)
stop_found-size r id (some n) v e =
    (omega (arith, length-erase-Distinct id r.handles v.distinct, ap present e), refl)

stop-size :
    (r : Registry) (id : ℕ)
    → IsValid r
    → r.locked ≡ false
    → (length (stop_notification r id).1.handles + present (find id r.handles) ≡ length r.handles)
      × ((stop_notification r id).1.limit ≡ r.limit)
unfolding stop_notification
stop-size r id v free = simp free (stop_found-size r id (find id r.handles) v refl)

module _ (r : Registry) (v : IsValid r) where
  -- What two stops of different users leave.
  module _ (free : r.locked ≡ false) (i j : ℕ) where
    abbrev first : Registry
    first = (stop_notification r i).1

    abbrev second : Registry
    second = (stop_notification first j).1

    first_free : first.locked ≡ false
    first_free = (stop_notification_lem r i free).3

    two_stops :
        ((stop_notification r i).0 ≡ returned 0)
        × ((stop_notification first j).0 ≡ returned 0)
        × (second.locked ≡ false)
        × ((key : ℕ)
            → find key second.handles
              ≡ (if j == key then none else if i == key then none else find key r.handles))
    two_stops =
        let (call, entries, gone, lock) = stop_notification_lem r i free in
        let (call', entries', gone', lock') = stop_notification_lem first j first_free in
        (
          call,
          call',
          lock',
          λ key. entries' key ∙ ap (λ o. if j == key then none else o) (entries key),
        )

    two_sizes :
        length second.handles
          + present (if i == j then none else find j r.handles)
          + present (find i r.handles)
        ≡ length r.handles
    two_sizes = omega (
      arith,
      (stop-size r i v free).0,
      (stop-size first j (perform-IsValid r (stop i) v) first_free).0,
      ap present ((stop_notification_lem r i free).1 j),
    )

    two_limits : second.limit ≡ r.limit
    two_limits =
        (stop-size first j (perform-IsValid r (stop i) v) first_free).1 ∙ (stop-size r i v free).1

-- Two keys that are taken away in either order.
either_way :
    (i j key : ℕ) (o : Option Notify)
    → (if j == key then none else if i == key then none else o)
      ≡ (if i == key then none else if j == key then none else o)
either_way i j key o = elim (Bool-cases (i == key)) [
  | inl gone ↦
      rw gone (elim (Bool-cases (j == key)) [ inl also ↦ rw also refl | inr not ↦ rw not refl ])
  | inr kept ↦ rw kept refl
]

stops-Same :
    (r : Registry) (i j : ℕ)
    → IsValid r
    → r.locked ≡ false
    → Same (perform_all r (stop i ∷ stop j ∷ [])).1 (perform_all r (stop j ∷ stop i ∷ [])).1
stops-Same r i j v free =
    let (c, d, lock, entries) = two_stops r v free i j in
    let (c', d', lock', entries') = two_stops r v free j i in
    record {
      locked = lock ∙ sym lock';
      limit = two_limits r v free i j ∙ sym (two_limits r v free j i);
      size = elim (Bool-cases (i == j)) [
        | inl same ↦
            ap (λ k. length (perform_all r (stop k ∷ stop j ∷ [])).1.handles) {x = i} {y = j}
              (ground arith)
            ∙ sym (
                ap (λ k. length (perform_all r (stop j ∷ stop k ∷ [])).1.handles) {x = i} {y = j}
                  (ground arith))
        | inr other ↦
            let back : (j == i) ≡ false = ground arith in
            omega (
              arith,
              two_sizes r v free i j,
              two_sizes r v free j i,
              ap (λ b. present (if b then none else find j r.handles)) other,
              ap (λ b. present (if b then none else find i r.handles)) back,
            )
      ];
      entries = λ key. entries key ∙ either_way i j key (find key r.handles) ∙ sym (entries' key);
    }

locked_stops :
    (r : Registry) (i j : ℕ) (qs : List Request)
    → r.locked ≡ true
    → perform_all r (stop i ∷ stop j ∷ qs) ≡ perform_all r (stop j ∷ stop i ∷ qs)
unfolding stop_notification
locked_stops r i j qs busy = simp busy refl

stops_change_places :
    (a : Valid) (i j : ℕ) (qs : List Request)
    → let one = perform_all a.0 (stop i ∷ stop j ∷ qs) in
      let other = perform_all a.0 (stop j ∷ stop i ∷ qs) in (one.0 ≡ other.0) × Same one.1 other.1
stops_change_places (r, v) i j qs = elim (Bool-cases r.locked) [
  | inl busy ↦
      let same = locked_stops r i j qs busy in
      (
        ap (λ p. p.0) same,
        subst (λ p. Same (perform_all r (stop i ∷ stop j ∷ qs)).1 p.1) same
            (record { locked = refl; limit = refl; size = refl; entries = λ key. refl }),
      )
  | inr free ↦
      let (c, d, lock, entries) = two_stops r v free i j in
      let (c', d', lock', entries') = two_stops r v free j i in
      let ij = after (stop i ∷ stop j ∷ []) (r, v) in
      let ji = after (stop j ∷ stop i ∷ []) (r, v) in
      let (rest, same) = perform_all-Same ij.0 ji.0 qs ij.1 ji.1 (stops-Same r i j v free) in
      (ap₂ (λ x xs. x ∷ xs) (c ∙ sym c') (ap₂ (λ x xs. x ∷ xs) (d ∙ sym d') rest), same)
]

-- On the table as an abstract type, well-formed tables up to the order of their entries, on which any
-- calls are functions: two stops may change places, whatever calls follow, without a difference in any
-- result or in the table at the end.
pub stop_comm :
    (i j : ℕ) (qs : List Request) (t : Table)
    → (calls (stop i ∷ stop j ∷ qs) t ≡ calls (stop j ∷ stop i ∷ qs) t)
      × (table_after (stop i ∷ stop j ∷ qs) t ≡ table_after (stop j ∷ stop i ∷ qs) t)
stop_comm i j qs =
    Quot.ind (λ t. hlevel Table_set)
      (λ a. let (results, same) = stops_change_places a i j qs in (results, Quot.sound same))
