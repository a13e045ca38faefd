-- ===== src/Registry/Deadlock.antt =====
-- What follows a start on a full table.
use server_simple.Base.{◌<◌, ◌≡◌, refl, ap, Bool, true, false, List, [], ◌∷◌, lt→ltb, length, map}
use server_simple.Notify.{Json}
use server_simple.Registry.{
  Registry, Call, blocked, returned, start_notification, stop_notification, ret_max_user, Request,
  start, stop, perform, perform_all,
}

pub locked_blocks :
    (reg : Registry) (r : Request) → reg.locked ≡ true → perform reg r ≡ (blocked, reg)
unfolding start_notification stop_notification
locked_blocks reg (start json started) h = rw h
locked_blocks reg (stop id) h = rw h

all_blocked :
    (reg : Registry) (rs : List Request)
    → reg.locked ≡ true
    → perform_all reg rs ≡ (map (λ r. blocked) rs, reg)
all_blocked reg [] h = refl
all_blocked reg (r ∷ rs) h = rw (locked_blocks reg r h, all_blocked reg rs h) refl

-- Where nobody holds the mutex and the table has more entries than the limit, a start returns
-- CLIENT_REQUEST_RET_MAX_USER and keeps the mutex: after it every call, start or stop, waits for
-- the mutex, and none changes the table.
pub perform_all-full :
    (reg : Registry) (json : Json) (started : Bool) (rs : List Request)
    → reg.locked ≡ false
    → reg.limit < length reg.handles
    → perform_all reg (start json started ∷ rs)
      ≡ (returned ret_max_user ∷ map (λ r. blocked) rs, record reg { locked = true })
unfolding start_notification
perform_all-full reg json started rs free full =
    rw (free, lt→ltb _ _ full)
      (ap (λ (p : List Call × Registry). (returned ret_max_user ∷ p.0, p.1))
        (all_blocked (record reg { locked = true }) rs refl))
