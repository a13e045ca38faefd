-- ===== src/Lib.antt =====
-- A model of ServerSimple, a C and C++ server that takes commands in packets over TCP and runs
-- push notifications for its users, and what is proved of it.
--
-- A connection goes through four layers. The kernel's socket stands below; the descriptor layer
-- (Server/vio.cc, Server/viosocket.c) calls it; the packet layer (Server/net_serv.cc) cuts the
-- byte stream into packets with a length and a number; the session (Server/net_connect.cc)
-- reads a command, runs it and replies. Beside them stand the accounting of connections and
-- threads and the table of notifications (both Server/server.cc), and the notification with its
-- own thread (Server/NotifyMessage.cc).
--
-- Files, and what they model:
--   Base         Shared names, Boolean tests, lists and buffers over the native numbers.
--   Socket       The kernel's side of one connection: `read`, `write`, the options, `close`. The bytes
--                that arrive, in which segments, and how much every `write` takes are data of the
--                socket, so the theorems range over all of them.
--   Vio          `struct st_vio`: vioRead is `vio_read`, vioReadBuff `vio_read_buff`, vioWrite
--                `vio_write`, vioBlocking `vio_blocking`, vioClose `vio_close`, and so on. Vio/Reader
--                has the interface that vioRead and vioReadBuff have in common, Vio/Peer the
--                address of the other end and the tests of errno.
--   Net          `struct stNet`, netInit (`net_init`), netRealloc (`net_realloc`), the timeouts.
--   Net/Write    netRealWrite, net_write_buff, netFlush, myNetWrite and netWriteCommand.
--   Net/Read     my_real_read and myNetRead.
--   Net/Clear    net_data_is_ready and netClear.
--   Session      do_command, dispatch_command, net_end_statement, sendKeytoClient. Session/Data has
--                what they work on, Session/Save SaveToken.
--   Connection   handle_one_connection, the thread of a connection. Session/Respond and
--                Connection/Talk say what it does without a network: a function from messages to
--                answers.
--   Registry     StartNotification and StopNotification. Registry/Abstract has the table as a
--                quotient that forgets the order of its entries, Registry/Lifetime the objects of the
--                table against the threads that keep pointers to them.
--   Notify       The class NotifyMessage and `thread_start`. Notify/Database has MysqlDealTask with its
--                queries, Notify/Request the request that PushMessage makes, Notify/Posts the
--                thread with both.
--   Server       create_new_thread, create_thread_to_handle_connection, unlink_thd, as critical
--                sections that interleave.
--   Accept       handle_connections_sockets with everything that it calls, and the end of a thread:
--                what each branch takes and gives back. A round is a path of Server's relation.
--   Startup      main and network_init.
--   System       The commands of all connections on what their threads share, with their critical
--                sections interleaved. Connection has one thread alone, with nobody else changing what
--                it shares and with one `Env` for all its commands.
--   Client       What StartAlarm of ClientTest/clientTest.cc sends; Client/Threads has its main and
--                thread_start, and the count that they share.
--   Aes          PaddingDataPKCS7 and UnPaddingDataPKCS7 of Server/aes.c, and DecryptData. Aes/Keys has
--                KeyGenerator.
--   Sealed       The branches of Server/net_connect.cc and ClientTest/clientTest.cc for
--                ENABLE_DATA_ENCRYPTION_IN_COMMUNICATION 1: `unseal` is the head of dispatch_command,
--                `sealed_reply` the end of net_end_statement.
--   Log          `log` of Server/log.c with `strmake`; Log/Streams has the date and the two files. A call
--                of the log from the other parts does not change their state, and is left out there.
--   Tests        Every theorem at a concrete input.
--
-- A pointer into a buffer is an offset, a pointer with a length is the list of its bytes, and a
-- C integer is a natural number with its wrap-around written out where the code counts. State
-- is passed explicitly: an operation takes a record and returns its result and the new record.
--
-- Loops: `write_loop` and `read_loop` get as many rounds as there are bytes, and both end
-- before these run out, since a round that goes on moves a byte at least. `write_packets` and
-- `write_commands` take MAX_PACKET_LENGTH bytes in every round, and get as many rounds as
-- bytes. `read_more`, the loop for a packet in several parts, never starts with the buffer of
-- netInit: a packet there is shorter than MAX_PACKET_LENGTH. `serve` gets one round more than
-- there are bytes to come; a round that goes on takes a packet header at least. `drain`, the loop of
-- netClear, gets one round more than there are bytes to come, and takes a byte in every round that goes
-- on. `grow` doubles the size
-- of a buffer, from 2 on, which an int allows fewer than 31 times. The accept loop, which does not end, is a relation, `Turns`. The other loops are over a list or
-- count down.
--
-- Not modelled: the clock and signals, which are calls of the system; the
-- copies of tiny-AES, curve25519-donna and rapidjson, whose results are arguments
-- (`Session.Env`, `decrypt_data`); MySQL and libcurl, likewise. The libraries of
-- the cipher and the curve have the laws of `Sealed.Crypto`. Session and Client are the branches for
-- ENABLE_DATA_ENCRYPTION_IN_COMMUNICATION 0, which is what the source sets.
pub mod Base
pub mod Socket
pub mod Vio
pub mod Net
pub mod Notify
pub mod Registry
pub mod Session
pub mod Server
pub mod Connection
pub mod Accept
pub mod System
pub mod Client
pub mod Aes
pub mod Log
pub mod Sealed
pub mod Startup
pub mod Tests
