-- ===== src/Tests/Packets.antt =====
-- The packet layer at small connections.
use server_simple.Base.{
  ℕ, Bool, Option, ◌==◌, ◌≡◌, refl, true, false, none, some, [], ◌∷◌, ◌++◌, arith,
}
use server_simple.Socket.{Socket, segment}
use server_simple.Socket.Laws
use server_simple.Net.{Net}
use server_simple.Net.Write.{
  net_write_buff, my_net_write, net_write_command, write_packets, write_all,
}
use server_simple.Net.Write.Stream.{stream, IsOpen, Appends}
use server_simple.Net.Write.Buffered.{net_write_buff-Appends}
use server_simple.Net.Write.Frames.{FrameWrites, my_net_write-FrameWrites}
use server_simple.Net.Write.Command.{CommandWrites, net_write_command-CommandWrites}
use server_simple.Net.Read.{my_net_read}
use server_simple.Net.Read.Outcome.{CanRead}
use server_simple.Net.Read.Deliver.{IsArriving}
use server_simple.Net.Read.Arrive.{HandedOver, my_net_read-HandedOver}
use server_simple.Net.Roundtrip.{my_net_read-my_net_write}
use server_simple.Tests.Data.{a_net}

-- Two writes that take two bytes and one, and then a failure.
abbrev slow : Net
slow = a_net [] (some 2 ∷ some 1 ∷ none ∷ [])

slow-IsOpen : IsOpen slow
slow-IsOpen = record { plain = refl; in_buffer = omega arith; allocated = omega arith }

-- A packet longer than the buffer's rest.
net_write_buff_example :
    Appends slow
      (1 ∷ 2 ∷ 3 ∷ 4 ∷ 5 ∷ 6 ∷ 7 ∷ 8 ∷ 9 ∷ [])
      (net_write_buff slow (1 ∷ 2 ∷ 3 ∷ 4 ∷ 5 ∷ 6 ∷ 7 ∷ 8 ∷ 9 ∷ [])).0
      (net_write_buff slow (1 ∷ 2 ∷ 3 ∷ 4 ∷ 5 ∷ 6 ∷ 7 ∷ 8 ∷ 9 ∷ [])).1
net_write_buff_example =
    net_write_buff-Appends slow (1 ∷ 2 ∷ 3 ∷ 4 ∷ 5 ∷ 6 ∷ 7 ∷ 8 ∷ 9 ∷ []) slow-IsOpen

-- Three bytes wait in the buffer.
abbrev waiting : Net
waiting = record slow { write_pos = 3 }

my_net_write_example :
    FrameWrites slow
      (7 ∷ 8 ∷ [])
      (my_net_write slow (7 ∷ 8 ∷ [])).0
      (my_net_write slow (7 ∷ 8 ∷ [])).1
my_net_write_example = my_net_write-FrameWrites slow (7 ∷ 8 ∷ []) refl slow-IsOpen

net_write_command_example :
    CommandWrites slow
      (2 ∷ ((5 ∷ []) ++ (7 ∷ 8 ∷ [])))
      (net_write_command slow 2 (5 ∷ []) (7 ∷ 8 ∷ [])).0
      (net_write_command slow 2 (5 ∷ []) (7 ∷ 8 ∷ [])).1
net_write_command_example =
    net_write_command-CommandWrites slow 2 (5 ∷ []) (7 ∷ 8 ∷ []) slow-IsOpen (omega arith)

-- A packet of three bytes in two segments, and the start of another.
abbrev arriving : Net
arriving = a_net (segment (3 ∷ 0 ∷ []) ∷ segment (0 ∷ 0 ∷ 7 ∷ 8 ∷ 9 ∷ 1 ∷ []) ∷ []) []

arriving-CanRead : CanRead arriving
arriving-CanRead = record {
  plain = refl;
  at_start = refl;
  capped = omega arith;
  some_room = omega arith;
  one_packet = omega arith;
  spare = omega arith;
}

arriving-IsArriving : IsArriving arriving (3 ∷ 0 ∷ 0 ∷ 0 ∷ []) (7 ∷ 8 ∷ 9 ∷ []) (1 ∷ [])
arriving-IsArriving = record {
  fed = record { fd = 5; open_sd = refl; data_only = tt };
  on_the_way = refl;
  head_size = refl;
  number = refl;
  len = refl;
  small = omega arith;
}

my_net_read-HandedOver_example :
    HandedOver arriving (7 ∷ 8 ∷ 9 ∷ []) (1 ∷ []) (my_net_read (λ n. true) arriving)
my_net_read-HandedOver_example =
    my_net_read-HandedOver (λ n. true) arriving (3 ∷ 0 ∷ 0 ∷ 0 ∷ []) (7 ∷ 8 ∷ 9 ∷ []) (1 ∷ [])
      arriving-CanRead arriving-IsArriving

-- The sender's packet is in its buffer.
abbrev sender : Net
sender = a_net [] []

written : (my_net_write sender (7 ∷ 8 ∷ 9 ∷ [])).0 ≡ false
unfolding my_net_write write_packets write_all net_write_buff
written = refl

on_the_wire :
    stream sender ++ Laws.stream arriving.vio.kernel.incoming
    ≡ stream (my_net_write sender (7 ∷ 8 ∷ 9 ∷ [])).1 ++ (1 ∷ [])
unfolding my_net_write write_packets write_all net_write_buff
on_the_wire = refl

my_net_read-my_net_write_example :
    HandedOver arriving (7 ∷ 8 ∷ 9 ∷ []) (1 ∷ []) (my_net_read (λ n. true) arriving)
my_net_read-my_net_write_example =
    my_net_read-my_net_write (λ n. true) sender arriving (7 ∷ 8 ∷ 9 ∷ []) (1 ∷ []) refl
      (record { plain = refl; in_buffer = omega arith; allocated = omega arith }) written
      arriving-CanRead arriving-IsArriving.fed refl (omega arith) on_the_wire

-- One round that is ready, and then none.
abbrev says : ℕ → Socket → Option Bool
says i kernel = some (i == 0)
