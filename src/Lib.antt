-- ===== src/Lib.antt =====
-- A robot factory that replicates its state, and the load balancer before it.
--
-- A factory (Server.cpp) keeps the last order of each customer. Orders become entries of a replicated
-- log: an engineer thread puts the order in a list and waits; the admin thread of the primary takes
-- it, writes its entry ahead to the log on disk (CommitLog.cpp), appends it in memory, sends it to
-- the other factories, commits it and lets the engineer thread go on. A replica files the entries of
-- the primary, commits what the primary has committed, and fetches what it has missed. A restart
-- reads the log on disk.
--
-- Base           numbers, `int`s with their wrap-around, lists, and how a call ends (Fault)
-- Platform       sockets, stdio, zlib and the memory layout of a word: a parameter of the model.
--                Platform/Laws has the behaviour that theorems rely on as named hypotheses.
-- Arguments      what the two programs of main share: argv
-- RobotFactory   the structs of RobotFactory.h; Wire has the bytes that `memcpy` copies
-- CommitLog      CommitLog.cpp, one function per method; Recovery, Batches and Durability have proofs
-- ServerStub     ServerStub.h and ClientSock.h: one function per exchange over a socket
-- Server         Server.cpp. State has the fields of ServerSocket and the actions (Exec) of its
--                threads; Primary has admin_thread, recheckcommit and recheckreplsock; Replica has
--                ifa_thread_read and initiate_recovery; Restart has initiate_recovery_from_log and
--                the start; Engineer has the engineer threads; Arguments has main. State/Spec says
--                what a server promises: its record is the replay of the committed part of its log.
--                Cluster runs a primary and a replica together, Cluster/Spec says what they
--                promise, and Cluster/Failover lets the replica take over.
--                Durable follows the log of a primary to its file, and back after a crash. Threads
--                lets the threads of one server take turns. Listeners has the loops that accept
--                connections, and Main the whole of start and main.
-- LoadBalancer   load_balancer/Messages.cpp, the messages and their buffers; Proxy has ServerThread.cpp,
--                the choice of a factory, the threads and what passes between a factory and a
--                customer, with the exchanges of structs of ClientStub.cpp and ServerStub.cpp; Arguments
--                has the command line of LoadBalancerMain.cpp, Connect ClientSocket.cpp, Listen
--                ServerSocket.cpp and the rest of main, Socket the loops of Socket.cpp that send and
--                receive a whole buffer, and Stubs the exchanges of messages
-- Client         ClientStub.h, ClientThread.cpp and Client.cpp; Client/Timer has ClientTimer.cpp over
--                a parameter for the arithmetic of `double`, Client/Run has run and main, and
--                Client/AtServer puts a customer and an engineer of the server at one connection
-- Tests          a concrete platform, and the theorems applied to concrete servers
--
-- A thread of the server holds the mutex from one wait to the next, so each of these actions is one
-- step. The world outside is a state that every call passes on; what a socket receives and whether a
-- call fails is up to it. An `int` keeps its wrap-around, and a log has less than 2 ^ 31 entries where
-- a theorem needs it. The loops that read the log from the file run on fuel; more fuel than the file
-- has entries is enough. So do the loops of Socket, where more fuel than bytes is enough if no call
-- fails, and the loop that serves a customer of the load balancer, where more fuel than requests is.
-- The other loops recur on a list or on the number of rounds that is left.
--
-- Not modelled: output but for the records and the numbers that a client prints, and the system's own
-- part in threads: how the threads of a client interleave is a parameter of `run`.
pub mod Base
pub mod Platform
pub mod Arguments
pub mod RobotFactory
pub mod CommitLog
pub mod ServerStub
pub mod Server
pub mod LoadBalancer
pub mod Client
pub mod Tests
