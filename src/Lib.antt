-- ===== src/Lib.antt =====
-- Verification library of the VNF monitoring server and its agent. The host server (src/HOST) accepts
-- connections from agents (src/VMCT) in the virtual machines, queues their reports, keeps a table of the machines' process
-- states, polls the cloud's database for the state of the machines, and decides from both whether a
-- network card is to bypass the machines. It runs on a common library (src/CMLB) with timers.
--
-- The modules, and the code they are about:
--   Prelude        lists and numbers: tests, segments, searches, signed integers
--   Timer.Ids      the pool of timer ids of src/CMLB/src/timer.c (func_init_tid, func_assign_tid,
--                  func_cancel_tid), with the queue of free ids that it implements
--   Timer.Entries  the list of running timers (search_, delete_ and insert_timer_list)
--   Timer.Api      timer_init, timer_start, timer_stop, timer_reset
--   Timer.Safety   pool and list together: no id is free and running, or running twice
--   Timer.Run      sequences of calls
--   Timer.Expiry   cmp_timer_value: when a timer is due (Elapsed), and a pass over the timers (Pass)
--   Host.Fifo      the message queue of src/HOST/src/host_fifo.c on an explicit heap, its chain of
--                  blocks (Chain), the queue it implements (Refine), messages (Deliver)
--   Host.State     the shared structures of inc/bpapp.h and src/HOST/hdr/host_conf.h
--   Host.Bypass    GetVmStatusInfoDB (src/HOST/src/host_conf.c), CheckVmcStatus and the end of
--                  CheckTcpStatus (src/HOST/src/host_task.c)
--   Host.Links     CheckTcpStatus: the minutes since a machine's last report
--   Host.Reports   FifoGet_Event, the start of SendVmProcStateRsp, SetVmProcessStateInfo
--   Host.Sock      TcpAccept, TcpSend, TcpRecv of src/HOST/src/host_sock.c
--   Host.Tasks     the loops of the four periodic threads
--   Host.Rows      ProcessVmProcStateInfo: the rows that are stored, for machines that the cloud does
--                  not know (Baremetal) and in a table (Unique)
--   Host.Server    tcp_rcvTask, fifo_getTask, TcpdSock_Event, SendVmProcStateRsp: a message from
--                  its connection to the queue (Delivery) and from there to the table (Processing,
--                  Respond), and the bounds of the buffer (Lengths, Bounds)
--   Host.Config    the configuration file: Isdigit, Gettoken, Lineparser, read_config
--                  (src/HOST/src/host_conf.c), what it keeps (Laws), which
--                  files it reads without a fault (Total), and how it reads a line (Lines)
--   Util           src/CMLB/src/kutil.c: texts of addresses (Addresses) and times (Stamps), the day of
--                  the week (Weekday), 64-bit numbers in network order
--   Net            TcpOpen, connect_timeout and setNonblocking of src/HOST/src/host_sock.c and
--                  src/VMCT/src/vmct_sock.c, and the descriptors that they leave open (Leaks)
--   Db.Mysql       the calls of the MySQL client library, and the order that they are permitted in
--   Db.Handles     the handlers of src/DBMB/src/dbmb_main.c: who owns a connection (Owned), the queries
--                  (Exec, Retry), calls in any order (Runs), the handlers of a caller (Caller)
--   Db.Orche       the statements of src/DBMB/src/dbmb_main.c upon the handlers
--   Db.Nova        the rows of SelectAllVMStatus of src/DBMB/src/dbmb_main.c
--   Db.Statements  the texts of the statements of src/DBMB and src/PQMB, and their lengths (Bounds)
--   Db.Postgres    src/PQMB/src/pqmb_main.c: its connections, the results that it takes and clears
--                  (Results), and the row of a machine on its way to the database (Rows)
--   Wire           the packed structures of inc/bpapp.h as bytes
--   Agent          TcpSend, TcpRecv, TcpReconnect and the timers' flags of src/VMCT/src/vmct_sock.c
--   Agent.Report   the message of SendProcStateReq (src/VMCT/src/vmct_task.c)
--   Agent.Processes  ReadUtmProcessConfig of src/VMCT/src/vmct_conf.c
--   Agent.Config   the agent's Gettoken, Lineparser and read_config, what they keep
--                  (Laws), and which files they read without a fault (Total)
--   Agent.Session  TcpRcvTask, TcpSessionTask, TmrCmdTask: what they keep of the link (Live, Reconnect)
--                  and when they end it (Heartbeat)
--   Agent.Delivery agent and host server together
--
-- A report goes from Agent.Report through Wire and Host.Sock to Host.Server, which puts it into
-- Host.Fifo and takes it out again. A processed report resets a counter of Host.Links and fills the
-- table of Host.Reports; the threads of Host.Tasks run the checks of Host.Bypass and Host.Links and
-- the pass of Host.Rows. Host.Config sets the intervals of Host.Tasks.
--
-- A C function is a function on the state that it changes. Where an access out of bounds, of a freed
-- block or through a null pointer would happen, a copy by `strcpy` over the end of its array among them,
-- the result is `none`, or a constructor of its own. A section under one mutex is one step; what other threads do during a wait is an argument. System and library calls (malloc,
-- recv, send, select, accept, the database client, the byte order) are arguments: answers in
-- their order, or functions. The loops of Host.Fifo take fuel, one round for each block; fuel of the
-- number of blocks is enough, and for a single block one round. The other loops are recursion on
-- the list that they run over or on the list of answers.
--
-- The calls of the database clients and of the system are kept as a list, the newest first, in
-- the modules Db and Net: an answer may depend on all calls before it, and a theorem speaks of
-- the calls that the code makes. Where a theorem needs that a new object, result or descriptor is
-- not one in use, this is a hypothesis.
--
-- Not modelled: log output, the ticks of the timers' thread, the start of the processes and their threads, a database client that finds
-- no memory, and the texts of kutil.c that only restate another one. The commands that would
-- switch the card are compiled out in the source, so that the mode is a field of the
-- configuration alone. What `sscanf` makes of a number, and the texts of addresses, are
-- parameters.
pub mod Prelude
pub mod Util
pub mod Net
pub mod Timer
pub mod Host
pub mod Db
pub mod Wire
pub mod Agent
