-- ===== src/Lib.antt =====
-- Tsunami UDP: verification of the file transfer protocol of tsunami-udp/.
--
-- A server sends the blocks of a file as UDP datagrams (tsunami-udp/server). A client receives them,
-- marks them in a bitfield, asks over a TCP connection for those that are missing, and hands each new
-- block through a ring buffer to a second thread, which writes it to disk (tsunami-udp/client).
--
-- Prelude: Boolean tests, lists and 32-bit words over the native natural numbers.
-- Protocol: the datagram, the request `retransmission_t` and the constants that both sides use.
-- Ring: tsunami-udp/client/ring.c. `full`, `cancel`, `confirm`, `create`, `peek`, `pop`, `reserve` and
--   `dump` are the functions ring_*. Ring/Queue is the queue that the ring stands for, Ring/Refine
--   relates the two, Ring/Threads has the two threads as a step relation, with their sleep on the
--   condition variables and the wake-ups by signals.
-- Bitmap: the bitfield of received blocks in tsunami-udp/client/command.c (`got_block`, `mark`), the
--   gapless prefix (`advance`) and the count of lost blocks (`total_lost`).
-- Client/Transfer: the state of a transfer, from tsunami-udp/include/tsunami-client.h.
-- Client/Requests: ttp_request_retransmit, ttp_repeat_retransmit and ttp_request_stop of
--   tsunami-udp/client/protocol.c.
-- Client/Receive: the receive loop of command_get in tsunami-udp/client/command.c; Iterate is one
--   iteration, Session the loop with the rounds of the disk thread between the iterations, and Keep,
--   Logic, Frame, Insert, Ends, Complete, Delivery, Guarantees and Origin prove what
--   it does.
-- Client/Disk: accept_block of tsunami-udp/client/io.c and disk_thread of tsunami-udp/client/command.c,
--   with the file on disk; Blocks and Whole prove which file it leaves.
-- Client/File: the receive loop and the disk thread together, from the datagrams that arrive to the
--   file on disk.
-- Client/Finish: the end of command_get, from the stop block to pthread_join.
-- Server/Datagram: build_datagram of tsunami-udp/server/io.c.
-- Server/Transmit: ttp_accept_retransmit of tsunami-udp/server/protocol.c and the transmission loop of
--   client_handler in tsunami-udp/server/main.c.
-- Server/Options: process_options of tsunami-udp/server/main.c and reset_server of
--   tsunami-udp/server/config.c.
-- Authentication: prepare_proof of tsunami-udp/common/common.c, and ttp_authenticate of
--   tsunami-udp/client/protocol.c and tsunami-udp/server/protocol.c, with MD5 as a parameter.
-- Decimal: the decimal numbers of the C library, as the program prints and reads them.
-- Wire: htonll and ntohll of tsunami-udp/common/common.c. Wire/Connection is the control connection as
--   one side uses it: an action takes what is still to come in and how much can be written, and says
--   what was sent and how it ended; read_line, full_read and full_write of common.c are actions.
-- Hook: the list of files that the program of the option allhook prints, in ttp_open_transfer of
--   tsunami-udp/server/protocol.c.
-- UdpErrors: get_udp_in_errors of tsunami-udp/common/common.c.
-- Negotiation: ttp_negotiate and ttp_open_transfer of both sides, as actions. Epoch is the epoch on the
--   wire between hosts of either byte order, Accept the server that has the file, Agreement the two
--   sides together, Refusal the ways to fail, Revision ttp_negotiate.
-- Listing: command_dir of tsunami-udp/client/command.c, and fread_line of common.c.
-- Session: the connection as a whole: command_connect of tsunami-udp/client/command.c, client_handler
--   of tsunami-udp/server/main.c up to a transfer, and ttp_open_port of both sides. Handshake is its
--   start, Serve the loop of the server, Names the start of command_get with the list of `get *`, and
--   Whole the way of a file from the server's disk to the client's.
-- Clock: get_usec_since of tsunami-udp/common/common.c.
-- Console: main and parse_command of tsunami-udp/client/main.c (Words, Arguments), and command_set and
--   parse_fraction of tsunami-udp/client/command.c with reset_client of tsunami-udp/client/config.c
--   (Settings).
-- EvnFilename: tsunami-udp/rtserver/parse_evn_filename.c, with parse_time as a parameter.
--
-- A time_t has 64 bits. fgets gives the console its line as an argument. A thread that waits on a
-- condition variable makes no step until a signal, or a spurious wake-up, has reset the flag that says
-- that it sleeps.
--
-- Numbers of type u_int32_t wrap at 2 ^ 32 where the code can reach it; the theorems on a whole
-- transfer assume a file of fewer than 2 ^ 32 - 1 blocks. The loops on fuel are `advance_from`, with
-- one round more than the file has blocks, `disk_loop`, with as many rounds as the ring has slots,
-- `count_seconds`, with a round for each second, `digits_from`, with one round more than the number,
-- and `aux_entries`, `collect` and `search`, with a round for each byte, of which each round takes at
-- least one; in each case the theorems on the functions that start them give the result of the whole
-- loop, on the inputs that they describe. The results of realloc, recvfrom, read and sendto are
-- arguments, and so are the clock and all rates; doubles of the server are a parameter `Floats`.
-- Requests during a transfer take the results of the control connection as arguments, all that comes
-- before has it as a `Line`. The loop of client_handler has a round for each time of a list.
--
-- Not modelled: the statistics that are only printed, the rates that they and ttp_update_stats work out
-- with doubles, dump_blockmap, usleep_that_works, the fork of a child for each client, sockets and
-- transcripts, which are calls of the operating system or output; the code under VSIB_REALTIME and the
-- Mark5 variant, which call the drivers of their hardware; and the Windows support.
pub mod Prelude
pub mod Ring
pub mod Bitmap
pub mod Protocol
pub mod Client
pub mod Server
pub mod Authentication
pub mod Decimal
pub mod Wire
pub mod Hook
pub mod UdpErrors
pub mod Negotiation
pub mod Listing
pub mod Session
pub mod Clock
pub mod Console
pub mod EvnFilename
