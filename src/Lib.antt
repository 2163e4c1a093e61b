-- ===== src/Lib.antt =====
-- A model of puffboy_advance, a file system that a Wii under NetBSD keeps in the memory of a Game
-- Boy Advance on its controller port, of the packet protocol between the two, of the upload of the
-- program that runs on the GBA, and of two programs that try the link out.
--
-- The parts and the files that model them:
--   Base      Boolean tests, lists and bit operations over the native numbers.
--   Wire      puffboy_advance/shared/command.h: `send_request` and `receive_response`, which cut a
--             message into packets of 31 bits and put it together again (Wire/Chunk and Wire/Rounds
--             for one chunk and one round, Wire/Bytes for the words of a message, Wire/Packets for
--             the packets). Wire/Link adds `gba_write` and `gba_read` of
--             wiishared/lib/gcport_ioctl.h, Wire/Commands the other two commands there; the driver
--             behind `ioctl` and the class LinkCube are the record `Link`, whose laws are the order
--             of the transferred bytes.
--   Message   the structs of command.h as records of their fields, in the reader's byte order.
--             Message/Structs gives each its field types, from which Message/Layout computes its
--             bytes in the memory of either machine; the `SSWAP` macros are there, too.
--   Server    puffboy_advance/gba/src/main.cpp. `State` is ENTRIES, GBA_BLOCKS and ID; a pointer to
--             an entry is its index. Server/Blocks is `entry_setsize` and the copying loops,
--             Server/Tree the linked lists of children, Server/Handlers the request handlers, each
--             from the decoded request and the state to the response and the new state, Server/Boot
--             the set-up in `main`, Server/Main its switch over the commands. Server/Safe says which
--             states are well formed, and follows each operation on such a state; Server/Ends
--             does the same for the loops that end, and Server/Main/Answers is both together.
--   Client    the loops of `puffboy_node_write` and `puffboy_node_read`
--             (puffboy_advance/wii/node), run against the handlers of Server, Client/WriteRead one
--             after the other; Client/Nodes is the other operations there and fs/statvfs.c, for
--             any exchange of a request for its response, Client/Mount what is told about the file
--             system as such, Client/Readdir the listing (puffs is the record `Dirents`),
--             Client/Wait `wait_for` of pba_ops.c.
--   Exchange  the loop in `main` on the packets that the link yields: `receive_response`, `SSWAP`, the
--             handler and `send_request` together, with the layouts of Message/Structs. Exchange/Call
--             is the Wii's side of it, Exchange/Remote both sides; Exchange/Write is the Wii's side of a
--             write, with its messages, and Exchange/RemoteWrite both sides; Exchange/Fits says which
--             tables have attributes in the range of their C types, for Exchange/Getattr, one call on
--             all of them.
--   Multiboot wiishared/lib/multiboot.h, which uploads a program to the GBA: the loop that waits for
--             it, the key, the checksum, the encrypted words. What `fopen`, `calloc`, `cmd_identify`
--             and `gba_read` return are arguments.
--   Echo      echo/wii/echo.c and echo/gba/src/main.cpp: a line that goes over the link and comes back
--             (Echo/Words what is sent, Echo/Stores what is stored, Echo/Shows the GBA's side).
--   Performance  performance_test/wii/main.c and performance_test/gba/src/main.cpp: how much of an
--             answer a measurement takes.
--   Tests     concrete runs.
--
-- Numbers: a value of w bits is a natural number below 2 ^ w; wrap-around is written out. A result
-- of type `Run` is `done`, or `fault` for an access that C leaves undefined (NULL, out of bounds), or
-- `spins` when a loop's fuel runs out, or `waits` when a loop needs a message that was not sent.
-- Fuel: the walks along children need as much as the directory has children, and there are 20
-- entries; `copy_loop` runs with one more than `buflen`, since a round takes at least one byte, but
-- when nothing is left of the write, where the code's loop does not end either; the client's loops
-- need one round for each byte at most; the loop that waits for the GBA makes 10002 rounds at most.
--
-- A field of a response that the code does not set keeps what lay on the stack, the argument `junk`.
-- `gen` stands for what `rand` returns. `strcpy` and `snprintf` are written out for arrays of 32 bytes:
-- a name without a 0 and a format with a conversion other than `%%` are undefined accesses.
--
-- The queue of LinkCube, 120 values (1024 in the copy of performance_test), is taken to be long
-- enough: the longest message has 36 packets, a line of the echo program 32 words, and each side waits
-- for the answer before it sends again.
--
-- Both compilers place a field at a multiple of its size, 8 for a `uint64_t`; what lies in the gaps is
-- the argument `padding`.
--
-- Not modelled: the command line and the set-up of the programs (with the command around
-- wiishared/lib/multiboot.h, which is nothing else), the times of `puffboy_baseattrs`, the PCX
-- viewer, which is an example of the GBA's tool chain, and the copied libraries of gbashared.
-- puffs is not modelled: what it is told is part of a result, or an argument makes something of it.
-- Two calls never overlap: the GBA runs one handler at a time, and the client one request.
pub mod Base
pub mod Wire
pub mod Message
pub mod Server
pub mod Client
pub mod Exchange
pub mod Multiboot
pub mod Echo
pub mod Performance
pub mod Tests
