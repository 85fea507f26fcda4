-- ===== src/Lib.antt =====
-- A model of smtprelay, a relay for mail that is written in Go, and proofs about it.
--
-- The program. Two listeners take messages: `smtpHandler` (smtplistener.go) is called by the SMTP
-- server for each message, and `tcpHandler` (tcplistener.go) reads a compressed packet of messages
-- from a TCP connection. Both parse a message (message.go), look up a mail server for each domain of
-- its recipients (dns.go), and push one entry for each domain onto the mail queue (mq.go).
-- `CloneMailers` (sender.go) pops the entries and starts `SendMail` for each, as far as the limiter
-- of the senders has places. `SendMail` signs the text (dkim.go), sends it, and reads the error of the
-- remote server (status.go): the message is counted as sent or as dropped (stats.go), or it goes to
-- the error queue with a later time. `StartErrorHandler` takes the entries of the error queue back to
-- the mail queue when their time has come; `FlushErrors` moves all of them there at once, with the
-- error counter at its limit, on a signal and at the end of the program (smtprelay.go).
--
-- The files:
--   Base: lists, integers, Boolean tests, texts as lists of bytes, and the ways in which a Go call
--   ends (Base/Outcome: value, error, panic, fuel out, blocked for ever).
--   Status: status.go. `ParseOutcomingError` is parse_outcoming_error; the test for a permanent error
--   of sender.go is is_permanent.
--   Dns: dns.go. `lookupMailServer`, `getRoundElement`.
--   Message: message.go. `ParseMessage`, `ParseAddress`, `ParseDomain`, `GetDomainRecipientList`.
--   Config: config.go and `ReloadConfig` of smtprelay.go.
--   Stats: stats.go. Each channel of numbers is the list of what was sent on it.
--   Packet: packet.pb.go, the record and the accessors.
--   Queue: mq.go, with the record Relay of the global variables and the effects Exec of a goroutine on
--   it: state passing, with an outcome. `defer` runs after a value, an error or a panic.
--   Dkim: dkim.go. `DKIMLoadKeyRepository`, `DKIMSign`.
--   Sender: sender.go, `SendMail`.
--   Listener, Listener/Smtp, Listener/Tcp: smtplistener.go with `handlerPanicProcessor` of smtprelay.go,
--   and tcplistener.go; Listener/Tcp/Wire is the reading of a frame, Listener/Tcp/Serving the loop
--   of `StartTCPServer`, with its handlers, as a step relation, Listener/Smtp/Accepting the loop of
--   `StoppableListener.Accept`.
--   System: the goroutines of sender.go and the end of `GracefullyStop` of smtprelay.go as a step
--   relation on what they share and hold.
--   Process: `main`, `GetFlags`, `StartSignalListener` and `GracefullyStop` of smtprelay.go: the
--   start as a function of the files, and the life of the process as a step relation over System.
--   Statistics: `GetStatistics` of stats.go.
--   Smtpd: smtpd/smtpd.go, the server and its sessions; Smtpd/Input is what a session reads,
--   Smtpd/Command and Smtpd/Login and Smtpd/Proxy are smtpd/protocol.go and smtpd/address.go,
--   Smtpd/Serve the dispatch, the loop of a session and `configureDefaults`, Smtpd/Listening the loop of
--   `Serve` as a step relation; Smtpd/Relay is
--   `StartSMTPServer` of smtplistener.go, which puts `smtpHandler` into that server.
--   Client: smtp/smtp.go, the commands of the SMTP client; Client/Sending is `SendMail`,
--   and Client/Relayed puts it into the sender; Client/Login is `Auth` with smtp/auth.go.
--   EndToEnd: the client and a session at the two ends of one connection: a Network whose state is a
--   session of Smtpd; in EndToEnd/Hop that session is one of the relay.
--   Tests: runs on concrete inputs.
-- The other files hold the proofs, and are named for what they prove.
--
-- Parameters. Code that the program only calls is an argument: net/mail (Mail), net.LookupMX, gzip
-- and protobuf (Codec), encoding/json and the disk (Disk, KeyDir), the package dkim (DkimLibrary),
-- the clock and `smtp.SendMail` as the sender sees it (Outside), the fresh identifiers, base64 and
-- HMAC of the client, `DecodeString` and `ParseIP` (Decoders), the other side of a connection of
-- the SMTP client with net and net/textproto (Network), the checkers and the handler of an SMTP
-- server and the world that the handler acts on, and the order in which Go visits the keys of a
-- map, of which it is assumed that each key is visited as often as it is there. Where a panic is
-- excluded, it is assumed that the addresses that net/mail gives hold an `@`. Where frames are
-- read, it is assumed that `DecodeFixed32` gives the little-endian value of four bytes.
--
-- Bounds and fuel. The two queues hold 1000000 entries; a push onto a full one is the outcome
-- blocked. The loop of `getRoundElement` has one more unit of fuel than the error counter, and each
-- round lowers the counter by at least one; the waiting loop of `ExtractError` has one more than
-- the time that it waits for, in nanoseconds, and each round adds a second where a sleep lasts that
-- long at least; the loop of an SMTP session has one more than the lines that the connection can
-- still deliver, and each round takes one; the loop of `Auth` of the client ends with one unit
-- where the mechanism is PLAIN, and may go on as long as the server asks where it is CRAM-MD5.
-- Numbers of the configuration are non-negative, the letter case and white space of texts are those
-- of ASCII, and a code of an answer is read in the range of 64 bits.
--
-- The connection of an SMTP session. What a client sends is a list of reads, each of whole lines,
-- of which the scanner takes one read at a time into its buffer; the lines behind a handshake of
-- TLS are given with it. A line that has, with its line end of two bytes, more than 65536 bytes does
-- not fit into the scanner. What is written behind the end of the connection is lost. The time-outs
-- of reads and writes show only as the end of the reads. Where AUTH meets a line that does not fit,
-- Go's scanner gives the start of that line as a line of its own before it fails again; here it
-- only fails again.
--
-- The two ends together. The client sends a line, the session takes it through its scanner, and one
-- round of its loop answers; the client reads the lines that the session sends in answer. A session
-- that answers DATA with 354 waits for the text; in the model, it then handles DATA once more, with
-- the text on its connection, since the handling of a command is one step. The text of the client
-- is what `DotWriter` of net/textproto writes for it. Of base64 it is assumed that an encoding is
-- one word, and decodes to its text.
--
-- What the step relation leaves out. `SendMail` and `FlushErrors` take effect in one step, when
-- they end, and an attempt ends only while the error queue has room. The listeners appear by the
-- entries that they push, and by their refusals, which only add to the channel of the dropped
-- messages. System has one configuration throughout; that it is loaded again is a step of Process,
-- over System. `GracefullyStop` reads the lengths of the two queues at two moments, and anything
-- may happen in between. Sends on the channels of the statistics do not wait. In the loop of
-- `Serve`, a session takes effect when it ends. A handler of the TCP server takes its places,
-- answers, processes each message and ends in steps of their own, where its answer is left open. In
-- the life of a process, a listener may take messages at any time, also while the process stops,
-- since sessions that are under way go on then; the size of the limiter of the senders is that of
-- the configuration at the start.
--
-- Not modelled. The listening sockets, the stopping of the listeners, logging
-- and the HTTP server of the statistics are input and output. Of smtpd and smtp, which are forks that
-- this repository changes, the deadlines, the wrapping of header lines and the table of smtpd/status.go
-- are left out. The directories dkim, log4go and uuid are copies of
-- other projects' libraries, and build/patches is a file of Go's own library.
pub mod Base
pub mod Status
pub mod Dns
pub mod Message
pub mod Config
pub mod Stats
pub mod Packet
pub mod Queue
pub mod Dkim
pub mod Sender
pub mod Listener
pub mod System
pub mod Statistics
pub mod Smtpd
pub mod Client
pub mod EndToEnd
pub mod Process
mod Tests
