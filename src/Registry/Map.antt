-- ===== src/Registry/Map.antt =====
-- The table of notifications as a map: what every call does to every key.
use server_simple.Base.{
  ℕ, ◌≤◌, ◌≡◌, ◌≢◌, refl, ap, ◌∙◌, ◌⊎◌, inl, inr, arith, Bool, true, false, Bool-cases, Option,
  none, some, List, ◌∷◌, ltb, ltb→le, ◌==◌, if◌then◌else◌, length,
}
use server_simple.Notify.{
  Notify, Json, Built, new_notify, built, thrown, asserted, clean_up, as_int,
}
use server_simple.Registry.{
  Registry, Call, blocked, crashed, returned, find, erase, insert_new, start_if_absent, start_user,
  start_notification, stop_found, stop_notification, ret_ok, ret_already_started, ret_max_user,
  user_index_name,
}
use server_simple.Registry.Lookup.{find-erase-same, find-erase-other, erase-absent}

-- What a start may do to a table that is not full: `id` is the key, `out` the table afterwards.
abbrev Inserts : Registry → Json → Bool → ℕ → ℕ → Registry → Type 0
Inserts reg json started id code out =
    ((n : Notify) × (code ≡ ret_ok)
      × (find id reg.handles ≡ none)
      × (new_notify json started ≡ built n)
      × ((key : ℕ) → find key out.handles ≡ (if id == key then some n else find key reg.handles))
      × (out.deleted ≡ reg.deleted))
    ⊎ ((code ≡ ret_already_started) × (find id reg.handles ≢ none) × (out ≡ reg))
    ⊎ ((code ≡ ret_max_user) × (new_notify json started ≡ thrown) × (out ≡ reg))

abbrev pub Starts : Registry → Json → Bool → Call × Registry → Type 0
Starts reg json started (blocked, out) = ⊥
Starts reg json started (crashed, out) =
    ((json.is_object ≡ false)
      ⊎ (as_int (json.member user_index_name) ≡ none)
      ⊎ (new_notify json started ≡ asserted))
    × (out ≡ reg)
Starts reg json started (returned code, out) =
    (id : ℕ) × (as_int (json.member user_index_name) ≡ some id)
    × Inserts reg json started id code out
    × (out.locked ≡ false)

module _ (reg : Registry) (json : Json) (started : Bool) (free : reg.locked ≡ false) (id : ℕ)
    (key : as_int (json.member user_index_name) ≡ some id) where
  insert_new-Starts :
      (b : Built)
      → new_notify json started ≡ b
      → find id reg.handles ≡ none
      → Starts reg json started (insert_new reg id b)
  unfolding insert_new find
  insert_new-Starts (built n) e absent =
      (id, key, inl (n, refl, absent, e, (λ k. refl), refl), free)
  insert_new-Starts thrown e absent =
      let same = ap (λ hs. record reg { handles = hs }) (erase-absent id reg.handles absent) in
      (id, key, inr (inr (refl, e, same)), free)
  insert_new-Starts asserted e absent = (inr (inr e), refl)

  start_if_absent-Starts :
      (o : Option Notify)
      → find id reg.handles ≡ o
      → Starts reg json started (start_if_absent reg json started id o)
  unfolding start_if_absent
  start_if_absent-Starts none e = insert_new-Starts (new_notify json started) refl e
  start_if_absent-Starts (some n) e = (id, key, inr (inl (refl, (λ h. cc), refl)), free)

start_user-Starts :
    (reg : Registry) (json : Json) (started : Bool) (o : Option ℕ)
    → reg.locked ≡ false
    → as_int (json.member user_index_name) ≡ o
    → Starts reg json started (start_user reg json started o)
unfolding start_user
start_user-Starts reg json started none free e = (inr (inl e), refl)
start_user-Starts reg json started (some id) free e =
    start_if_absent-Starts reg json started free id e (find id reg.handles) refl

-- Where nobody holds the mutex and the table is not over its limit, a start ends, without the
-- mutex, and as a map the table changes at most at the key that the packet names: it returns 0 with
-- a new notification at that key, which was absent; or "already started" with an entry there, or
-- "max user" where the constructor throws, both without a change. It crashes only on a packet that
-- is no object, has no int "userIndex", or on which the constructor asserts.
pub start_notification-Starts :
    (reg : Registry) (json : Json) (started : Bool)
    → reg.locked ≡ false
    → length reg.handles ≤ reg.limit
    → Starts reg json started (start_notification reg json started)
unfolding start_notification
start_notification-Starts reg json started free room =
    let small : ltb reg.limit (length reg.handles) ≡ false = ground arith in
    simp (free, small)
      (elim (Bool-cases json.is_object) [
        | inl object ↦ simp object (start_user-Starts reg json started _ free refl)
        | inr not_object ↦ simp not_object (inl refl, refl)
      ])

abbrev pub on_stop : List Notify → Option Notify → List Notify
on_stop deleted none = deleted
on_stop deleted (some n) = clean_up n ∷ deleted

stop_found-lem :
    (reg : Registry) (id : ℕ) (o : Option Notify)
    → find id reg.handles ≡ o
    → ((key : ℕ)
        → find key (stop_found reg id o).handles
          ≡ (if id == key then none else find key reg.handles))
      × ((stop_found reg id o).deleted ≡ on_stop reg.deleted o)
      × ((stop_found reg id o).locked ≡ reg.locked)
unfolding stop_found
stop_found-lem reg id none e = (
  (λ key. elim (Bool-cases (id == key)) [
    | inl same ↦
        let found : find key reg.handles ≡ none =
          ap (λ k. find k reg.handles) {x = key} {y = id} (ground arith) ∙ e in
        rw same found
    | inr other ↦ rw other refl
  ]),
  refl,
  refl,
)
stop_found-lem reg id (some n) e = (
  (λ key. elim (Bool-cases (id == key)) [
    | inl same ↦
        let gone : find key (erase id reg.handles) ≡ none =
          ap (λ k. find k (erase id reg.handles)) {x = key} {y = id} (ground arith)
          ∙ find-erase-same id reg.handles in
        rw same gone
    | inr other ↦ rw other (find-erase-other id key reg.handles (ground arith))
  ]),
  refl,
  refl,
)

-- Where nobody holds the mutex, `StopNotification` returns without it, and as a map the table loses
-- the key and nothing else. The notification that was there, if any, has been told to exit and is
-- deleted.
pub stop_notification_lem :
    (reg : Registry) (id : ℕ)
    → reg.locked ≡ false
    → let (call, out) = stop_notification reg id in
      (call ≡ returned 0)
      × ((key : ℕ) → find key out.handles ≡ (if id == key then none else find key reg.handles))
      × (out.deleted ≡ on_stop reg.deleted (find id reg.handles))
      × (out.locked ≡ false)
unfolding stop_notification
stop_notification_lem reg id free =
    let (map, gone, lock) = stop_found-lem reg id (find id reg.handles) refl in
    simp free (refl, map, gone, lock ∙ free)

ends :
    (reg : Registry) (json : Json) (started : Bool) (p : Call × Registry)
    → Starts reg json started p
    → p.0 ≢ blocked
ends reg json started (blocked, out) s = absurd s
ends reg json started (crashed, out) s = λ e. cc
ends reg json started (returned code, out) s = λ e. cc

full_returns :
    (reg : Registry) (json : Json) (started : Bool)
    → reg.locked ≡ false
    → ltb reg.limit (length reg.handles) ≡ true
    → (start_notification reg json started).0 ≡ returned ret_max_user
unfolding start_notification
full_returns reg json started free full = simp (free, full)

-- Only a held mutex makes a call wait.
pub start_notification-waits :
    (reg : Registry) (json : Json) (started : Bool)
    → (start_notification reg json started).0 ≡ blocked
    → reg.locked ≡ true
start_notification-waits reg json started e = elim (Bool-cases reg.locked) [
  | inl busy ↦ busy
  | inr free ↦ elim (Bool-cases (ltb reg.limit (length reg.handles))) [
    | inl full ↦ let clash = full_returns reg json started free full in cc
    | inr small ↦ absurd (
        ends reg json started _ (start_notification-Starts reg json started free (ltb→le _ _ small))
          e)
  ]
]

pub stop_notification-waits :
    (reg : Registry) (id : ℕ)
    → ((stop_notification reg id).0 ≡ blocked → reg.locked ≡ true)
      × ((stop_notification reg id).0 ≢ crashed)
unfolding stop_notification
stop_notification-waits reg id = elim (Bool-cases reg.locked) [
  | inl busy ↦ simp busy ((λ e. refl), λ e. cc)
  | inr free ↦ simp free ((λ e. cc), λ e. cc)
]
