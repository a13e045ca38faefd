-- ===== src/Net/Init.antt =====
-- What `netInit` sets up.
use server_simple.Base.{
  ℕ, ◌≡◌, refl, Bool, true, false, not, length, length-replicate, replicate, arith,
}
use server_simple.Vio.{Vio}
use server_simple.Net.{
  net_init, net_local_init, net_set_read_timeout, net_set_write_timeout, zero_net,
}
use server_simple.Net.Write.Stream.{IsOpen}
use server_simple.Net.Read.Outcome.{CanRead}

buffer_size : length {A = ℕ} (replicate 2055 0) ≡ 2055
buffer_size = length-replicate {A = ℕ} 2055 0

-- On a zeroed structure `netInit` leaves a connection that packets can be written to and read from,
-- unless `malloc` fails, which it reports.
pub net_init-IsOpen :
    (allocated : Bool) (vio : Vio)
    → let (failed, net) = net_init allocated zero_net vio in
      (failed ≡ not allocated) × (allocated ≡ true → IsOpen net × CanRead net)
unfolding net_init net_local_init net_set_read_timeout net_set_write_timeout zero_net
net_init-IsOpen false vio = (refl, λ e. cc)
net_init-IsOpen true vio = (
  refl,
  λ e. (
    record { plain = refl; in_buffer = omega arith; allocated = omega (arith, buffer_size) },
    record {
      plain = refl;
      at_start = refl;
      capped = omega arith;
      some_room = omega arith;
      one_packet = omega arith;
      spare = omega (arith, buffer_size);
    },
  ),
)
