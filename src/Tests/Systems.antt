-- ===== src/Tests/Systems.antt =====
-- Connections that share a table.
use server_simple.Base.{◌≡◌, ◌≢◌, refl, true, false, some, none, inr, [], ◌∷◌, arith}
use server_simple.Socket.{segment, read, set_option}
use server_simple.Vio.{vio_read, vio_timeout}
use server_simple.Net.{net_set_read_timeout}
use server_simple.Net.Read.{my_net_read, my_real_read, read_loop}
use server_simple.Net.Read.Outcome.{CanRead}
use server_simple.Registry.{start_notification}
use server_simple.Session.{Thd, Shared, hangs, do_command}
use server_simple.System.{
  System, idle, counting, counts, running, waiting, heard, Steps, begins, waits, done, later,
}
use server_simple.System.Moves.{IsConsistent}
use server_simple.System.Invariant.{Steps-IsConsistent}
use server_simple.Tests.Data.{a_net, a_thd, a_registry, env}

-- Somebody holds the mutex, and two connections get a start of a notification.
abbrev starting : Thd
starting = a_thd (a_net (segment (3 ∷ 0 ∷ 0 ∷ 0 ∷ 2 ∷ 123 ∷ 125 ∷ []) ∷ []) [])

abbrev held : Shared
held = record { registry = record a_registry { locked = true }; thread_running = 0 }

abbrev two_idle : System
two_idle = record {
  shared = held;
  count_locked = false;
  active = idle starting ∷ idle starting ∷ [];
}

start_heard : heard env starting ≡ some 3
unfolding my_net_read my_real_read read_loop net_set_read_timeout vio_read vio_timeout read
    set_option
start_heard = refl

some_heard : heard env starting ≢ none
some_heard none_heard = let both = start_heard in cc

abbrev one_counts : System
one_counts = record {
  shared = held;
  count_locked = true;
  active = counting env starting 0 ∷ idle starting ∷ [];
}

abbrev one_begun : System
one_begun = record {
  shared = record held { thread_running = 1 };
  count_locked = false;
  active = running env starting ∷ idle starting ∷ [];
}

abbrev other_counts : System
other_counts = record {
  shared = record held { thread_running = 1 };
  count_locked = true;
  active = running env starting ∷ counting env starting 1 ∷ [];
}

abbrev two_begun : System
two_begun = record {
  shared = record held { thread_running = 2 };
  count_locked = false;
  active = running env starting ∷ running env starting ∷ [];
}

-- In the command itself the count goes up once more.
start_waits : do_command env starting two_begun.shared ≡ hangs (record held { thread_running = 3 })
unfolding do_command my_net_read my_real_read read_loop net_set_read_timeout vio_read vio_timeout
    read set_option start_notification
start_waits = refl

abbrev one_waits : System
one_waits = record {
  shared = record held { thread_running = 2 };
  count_locked = false;
  active = waiting ∷ running env starting ∷ [];
}

overlap : Steps two_idle one_waits
overlap =
    later {s = one_counts} (begins [] (idle starting ∷ []) starting env refl refl some_heard refl) (
      later {s = one_begun} (counts [] (idle starting ∷ []) starting env 0 refl) (
        later {s = other_counts}
          (begins (running env starting ∷ []) [] starting env refl refl some_heard refl)
          (later {s = two_begun} (counts (running env starting ∷ []) [] starting env 1 refl) (
            later {s = one_waits}
              (waits [] (running env starting ∷ []) starting env
                (record held { thread_running = 3 }) refl start_waits)
              done))))

starting-CanRead : CanRead starting.net
starting-CanRead = record {
  plain = refl;
  at_start = refl;
  capped = omega arith;
  some_room = omega arith;
  one_packet = omega arith;
  spare = omega arith;
}

two_idle-IsConsistent : IsConsistent two_idle
two_idle-IsConsistent = record {
  valid = record { distinct = tt; bounded = omega arith };
  running_count = refl;
  one_holder = refl;
  stuck = inr refl;
  each = (
    (record { plain = refl; empty = refl }, starting-CanRead),
    ((record { plain = refl; empty = refl }, starting-CanRead), tt),
  );
}

Steps-IsConsistent_example : IsConsistent one_waits
Steps-IsConsistent_example = Steps-IsConsistent two_idle one_waits overlap two_idle-IsConsistent
