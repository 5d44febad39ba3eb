-- ===== src/Lib.antt =====
-- A client for remote procedure calls over RDMA, as a kernel module: bitmap.c, rpc_common.c, rdma.c,
-- rpc_client.c, the test client rpc_client_test.c and the headers rdma.h, rpc.h and bitmap.h; and an
-- earlier prototype, bak/krping.c and bak/krping.h.
--
-- The parts. The user calls rpc_client.c: init_rpc_client opens a channel, send_rpc_msg_to_server takes
-- a message buffer's id from the channel's bitmap (rpc_common.c, bitmap.c) and sends through
-- rdma.c. Responses come back through the completion queue of rdma.c: cq_event_handler calls
-- receive_msg, which calls the handler of the RPC layer, which frees an id and calls the user's
-- handler, which wakes the requester. The connection manager's events change the state of the channel,
-- on which bind_client and connect_client sleep.
--
-- The files, and the code that each is about:
--   Base          tests on numbers, lists and integer codes, shared by all
--   Bitmap        bitmap.c; the array is the list of its bytes
--   Msgbuf        rpc_common.c; Take: one locked round, Spin: the loop, Holders: many threads
--   Message       struct rdma_msg and struct rpc_msg (rdma.h, rpc.h), their sizes and conversions
--   Kernel        what the code calls and this repository does not hold: allocation, objects that are
--                 alive, the adapter's answers, sleeping
--   Rdma          rdma.h: the states, the message buffer's context and the control block
--   Rdma.Cm       rdma.c: cma_event_handler, bind_client, connect_client, do_accept
--   Rdma.Send     rdma.c: alloc_seqn, send_rdma_msg
--   Rdma.Receive  rdma.c: receive_msg
--   Rdma.Cq       rdma.c: cq_event_handler, cq_thread
--   Rdma.Setup    rdma.c: setup_qp, setup_buffers, setup_wr, kfree_buffers, kfree_qp, clone_cb
--   Rdma.Channel  rdma.c: run_client, init_rdma_ch, destroy_rdma_client
--   RpcClient     rpc_client.c: init_rpc_client, send_rpc_msg_to_server, the handler, destroy_rpc_client;
--                 Exchange: what requests and responses amount to, as a system of steps; Session: runs
--                 of the code, and that they are those of the exchange; Order: responses in any order;
--                 Target: the copy of the address
--   TestClient    rpc_client_test.c: the user's handler, test_main; Proc: the file /proc/krping
--   Krping        bak/krping.c, bak/krping.h: the ping client that the channel grew out of. Cm: events and
--                 the sleep; Cq: completions; Setup; Ping: the loop; Flush: flush_qp; Client: its run;
--                 Opened: init_client and fin_client; Doit: commands; Proc: its file in /proc
--   Examples      concrete runs
--
-- How state is modelled. A World says which objects are alive, by address and kind, what the adapter
-- has been given, what the bitmap at a channel's address holds, and which events are to come; a run takes
-- a World and yields a result and a World, a fault (a use of what is not alive, a copy past a buffer's
-- end), or a task that sleeps for ever. Addresses are numbers that are never given out twice, and 0 is
-- NULL. A control block is a record that is passed on and returned; it carries its own address. A label
-- of the C code is a definition of its own, and falls into the next as there. The outcome of every call
-- into the kernel, the connection manager and the verbs is an argument (Verbs), a function of how many
-- calls were made before, so each can fail at any point.
--
-- Bounds and fuel. Words have 64 bits and wrap (alloc_seqn); sizes are assumed below 2 ^ 31 where the
-- code casts them. Loops over contexts are structural recursion on the list of contexts, which has
-- msgbuf_cnt entries. The loop of alloc_msgbuf_id runs on a list of rounds, each the list of what other
-- threads do in between: the theorems say when a list of rounds is enough and when none is. The loop of
-- cq_event_handler runs on the completions that polling yields. A sleep runs on the events to come. The
-- ping loop without a count gets one round more than there are things to come (Krping.Endless).
--
-- Not modelled: printing, the contents of work requests beyond their ids and their one segment, the
-- capabilities of a queue pair, what a message received during bind_client, connect_client or
-- do_accept does but to the state, valid_msg_size (called nowhere), rpc_shmem_client_handler
-- (prints, called nowhere), and, under bak/, getopt.c (a copy from ncpfs; what it yields is an
-- argument), rpc_client_bak.c and rpc_client_test_bak.c (earlier versions that do not compile).
-- Byte order is an argument (ByteOrder): all that is assumed of it is that on 64-bit words
-- cpu_to_be64 is its own inverse; Message.Endian has a little-endian host's. In a session
-- (RpcClient.Session) requests and responses come one after the other; Msgbuf.Holders and
-- Msgbuf.Spin have the interleavings of the threads that take ids. What a response says is the
-- server's: that it names the channel and has the full size is a condition.

pub mod Base
pub mod Bitmap
pub mod Msgbuf
pub mod Message
pub mod Kernel
pub mod Rdma
pub mod RpcClient
pub mod TestClient
pub mod Krping
pub mod Examples
