-- ===== src/Lib.antt =====
-- Sculpt, a minimal HTTP server framework in C (src/sculpt.h, src/sculpt_conn.c,
-- src/sculpt_header.c, src/sculpt_mgr.c and src/sculpt_util.c of the repository), with the sample
-- program app.c.
--
-- The program. An application creates a connection manager, gives it a pool of connections, binds
-- handlers to endpoints and polls. A poll sweeps the pool for connections past their limits, waits
-- for epoll events, accepts new connections into free slots of the pool, reads the request line and
-- the headers of a readable connection, and calls the handler of the first endpoint that takes the
-- URI.
--
-- Files.
--   Base                helpers: tests, lists and integers over the native numbers.
--   Machine             the structs of sculpt.h, the system calls, and the monad of stateful code.
--   Machine/Heap        malloc and free over live blocks. Machine/Blocks: what freeing one does.
--   Machine/Returns     total correctness. Machine/Frame: runs that leave the rest of the world alone.
--   Machine/Halts       runs that end, be it in a fault, and so do the files of this name below.
--   Machine/Occurs      whether a call is in the history. Machine/Since: which calls a piece of
--                       work has made.
--   Machine/Reads       what a client sends, byte by byte, whatever other calls are made meanwhile.
--   Machine/Holding     which blocks a piece of work has allocated and not freed. Machine/Lost: how many
--                       it never frees.
--   Code                the SC_* status codes.
--   Text                the functions of string.h that the program calls.
--   Pool                the connection pool of sculpt_conn.c: sc_mgr_conn_pool_init is `pool_init`,
--                       sc_mgr_conn_get_free `get_free`, sc_mgr_conn_release `release_conn`,
--                       sc_mgr_conns_cleanup `conns_cleanup`, sc_mgr_conn_pool_destroy `pool_destroy`.
--                       Pool/Valid has the invariant, Pool/Slots and Pool/Preserve what a write to
--                       a slot does to it, Pool/Stack the pool as an abstract stack of free slots,
--                       Pool/Loop a free list
--                       that has become a loop, and the other children a theorem on each function.
--   Accept              create_new_connection, return_500 and cleanup_after_error. Accept/Fates:
--                       what may become of a connection. Accept/Shared: the pool after
--                       cleanup_after_error.
--   Message             get_http_msg.
--   Str                 the sc_str functions of sculpt_util.c.
--   Headers             sculpt_header.c.
--   Endpoints           _endpoint_add, sc_mgr_bind_hard and sc_mgr_bind_soft of sculpt_mgr.c, and the
--                       search for a handler in sc_mgr_poll. Endpoints/Dispatch: what is called,
--                       and what is freed.
--   Manager             sc_mgr_create, sc_mgr_listen, the setters and sc_mgr_finish of sculpt_mgr.c,
--                       and sc_mgr_epoll_init.
--   Reader              next_header of sculpt_conn.c.
--   Request             parse_all_headers of sculpt_conn.c. Request/Wire has the bytes of a request,
--                       Request/Loaded and Request/Loop the loop over its headers, Request/Received
--                       all of it, Request/Paused one whose client pauses, Request/Arrives
--                       either of these, Request/Errors and Request/Broken one that
--                       cannot be read to its end.
--   Poll                sc_mgr_poll: `serve` is the part for a readable connection, `hang_up` that for
--                       a peer that has gone, `handle_events` the loop. Poll/Close and Poll/Ending
--                       have the end of a connection's round, Poll/Memory what stays allocated,
--                       Poll/Serve a whole request, Poll/Paused one whose client pauses,
--                       Poll/Batch, Poll/Steps and Poll/Events the loop over a batch of events,
--                       Poll/Round a whole poll, Poll/Unread and Poll/Broken a request that
--                       cannot be read to its end.
--   Response            sc_easy_request_build is `request_build`, sc_easy_send `easy_send`.
--                       Response/Decimal has %d and %zu, Response/Build the buffer, Response/Send
--                       what is sent and freed.
--   App                 root_handler and main of app.c. App/Page has the page that the handler writes,
--                       App/Handler the response that it sends, App/Equip and App/Willing its start, App/Rounds its
--                       loop, App/Life a run to its end.
--   Log                 sc_log, sc_error_log and sc_perror of sculpt_util.c.
--   Sample, Examples    a concrete kernel, pool and world, and the theorems there.
--
-- State. A `World` holds the manager, the history of the calls made to the system, and which
-- allocations are live. A function is a `Cmd`, from a world to a `Run`: a result with a world, or a
-- fault, which is undefined behaviour (a bad pointer, a write past an array, a free of what is not
-- live). A `Kernel`, a parameter of every definition that calls the system, answers each call from
-- the history up to it, so that a theorem about every kernel covers every behaviour of the network,
-- the clock and malloc.
--
-- Choices. A pointer to a connection is an index into the pool's array, and NULL is `none`. A list
-- of headers or endpoints is a list of nodes, with NULL for the empty list. A `char *` is a
-- `Buffer`: NULL, wild, or bytes that may be read from it on, the NUL among them. `int` and `time_t`
-- are unbounded integers, since counts stay within the pool's size; sizes handed to malloc wrap at 2
-- ^ 64. A `char` is signed. The loops run over the slots or the bytes that are left, so they need no
-- fuel, except the loop over the headers, which a client can keep up for ever; for a request of n
-- headers n + 1 rounds are proved to be enough. The digits of a number have fuel above the number.
-- Twelve errors in a row end that loop, so n + 13 rounds are enough for a client that sends no more
-- than n bytes or headers and then stops. The loop of main ends after a number of rounds, a
-- parameter that stands for the signal. A handler is called with the descriptor, the message and the
-- headers, and the call stands in the history. What it does is the application's code, the field
-- `run_handler` of the kernel: a theorem about requests says which handlers it allows, and main puts
-- `root_handler` of app.c there (`application`). `%d` and
-- `%s` of a response are printed in full and cut where the buffer of snprintf ends.
-- Messages printed to the terminal are not modelled, except those of sc_log and that of
-- sc_mgr_bind_soft, whose argument can fault. The values of the flags in fcntl and epoll calls are
-- left out of the history.
--
-- Not modelled: what the program prints, and what epoll keeps about descriptors: which events it gives
-- is the kernel's choice. sc_easy_send2 is declared and defined nowhere. prod/ holds a generated copy
-- of the sources.
pub mod App
pub mod Base
pub mod Log
pub mod Machine
pub mod Code
pub mod Pool
pub mod Accept
pub mod Str
pub mod Text
pub mod Headers
pub mod Message
pub mod Endpoints
pub mod Manager
pub mod Reader
pub mod Request
pub mod Poll
pub mod Response
pub mod Sample
mod Examples
