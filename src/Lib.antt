-- ===== src/Lib.antt =====
-- A model of zsync, a program that keeps the clipboards of several machines the same, and of its
-- relay server zsyncd. Times are milliseconds, a byte or a character is its number, and a text is
-- the list of its characters.
--
-- One node is the hub (Hub, from src/hub.rs). The watcher of the local clipboard hands it what the
-- user copied (local_observed), the command line writes to it (local_push), and the sessions with
-- the peers hand it their clips (apply_remote, apply_from). It keeps the hashes that must not be
-- sent back (Suppress, from src/suppress.rs), the highest sequence number of each origin
-- (Suppress.Seen), and its own sequence number in a file (State, from src/config.rs). The clipboard
-- is an interface (Clipboard, from src/clipboard/mod.rs, with the backend that keeps it in memory
-- and the one that keeps it in files, Clipboard.File, from src/clipboard/file.rs, where the files
-- of the machine are a map; Clipboard.Native, from src/clipboard/native.rs, puts the clipboard of a
-- Linux desktop before that one, over the commands wl-paste, wl-copy, xclip and xsel as parameters,
-- and Clipboard.Uris reads the files that were copied as paths or URIs), and what the hub sends to
-- its peers is the list of the messages it put into its channel. Every operation takes the clock of
-- the call, and whether the disk accepts a write, as arguments.
--
-- Clips travel in the frames of the LAN protocol (Protocol, from src/protocol.rs): Protocol.Frame
-- has the frames and the streams of them, Protocol.Clips the clips and their verification,
-- Protocol.Mime the content types. The digest SHA-256 and the JSON of the metadata are parameters:
-- of the digest nothing is assumed, but for the pins that it gives 32 bytes, and of the JSON that
-- what was written is read back and is not empty.
--
-- The relay server (Zsyncd, from src/zsyncd.rs) keeps the sessions of each group (Zsyncd.Rooms),
-- the addresses whose handshakes failed (Zsyncd.Probes) and the groups that it admits
-- (Zsyncd.Groups, with the commands on their file), answers requests on its admin socket
-- (Zsyncd.Admin), and lets the sessions of admitted groups join (Zsyncd.Leaf, where what serde_json
-- reads is a parameter, with the answer in Zsyncd.Leaf.Joining), and forwards their envelopes
-- (Zsyncd.Leaf.Serving). A session's two channels are numbers, and an operation on the rooms
-- returns what it sends to which channel, and which queues it closes; how many frames each queue
-- holds is an argument, since a full queue drops a frame.
--
-- Base has the helpers that these parts share. The recursion of every definition is structural.
-- Only handle_ipc takes fuel, for the requests of a connection, of which each takes a byte at
-- least. A sequence number is a u64 and a counter of failures a u32, whose wrap-around is written
-- out.
--
-- A leaf and the relay server talk in frames of their own (Relay, from src/relay.rs), whose
-- payloads are clips sealed for a group (Group, from src/group.rs: the ids of groups, the URIs and
-- the envelopes). The addresses that a user gives for a peer are in Net, from src/net.rs, and the
-- keys of groups, which such an address brings and a file keeps, in Net.Keys and Group.Keys. The
-- cipher and the derivation of its key are parameters: of the cipher it is assumed that what was
-- encrypted is decrypted, and that it grows by its tag.
--
-- The daemon (Daemon, from src/daemon.rs) dials the saved peers when it starts (Daemon.Starting)
-- and runs a session for each peer. A session begins with the greetings of two nodes
-- (Daemon.Greeting) or with the join at the relay server (Daemon.Joining). The loop of a session is
-- a function of its state and of the branch of its select! that completes, with the bytes that a
-- pending read holds (Protocol.Reading), for a peer on the LAN (Daemon.Session) and for the relay
-- (Daemon.RelaySession). Whether a write succeeds, and the nonce of an envelope, are arguments. The
-- table of the peers and the set of live sessions are in Daemon.Table, and the requests of the
-- command line in Daemon.Dispatch, which Daemon.Control reads and answers in the framing of Ipc,
-- from src/ipc.rs. Daemon.Watcher is the loop that watches the clipboard, Daemon.Redial are those
-- that dial a peer again, and Tlsutil, from src/tlsutil.rs, has the pins of the relay certificates,
-- whose file is written in place, so that a write can cut it off, and read by a connection before
-- its handshake and written behind it. The stop channels are numbers, and what was sent into them
-- and which tasks were started are lists.
--
-- The command line (Cli, from src/cli.rs) copies and pastes (Cli.Paste), by a request to the daemon
-- or, when none runs, by the clipboard itself, and stands in for xclip and xsel (Cli.Xclip). That
-- the clipboard keeps what is written to it is an interface (Cli.Holds), which the backend of files
-- fills (Cli.OnDisk). What a command has to do with the world outside is a record of its standard
-- input, what it printed and the files.
--
-- Not modelled: the tasks, sockets, timers and TLS handshakes of src/daemon.rs and src/zsyncd.rs,
-- which are calls of tokio and rustls; the start and stop of the two processes; the clipboards of
-- macOS and Windows, and how src/clipboard/native.rs runs a command; and of src/cli.rs the parsing
-- by clap and the texts that status, connect and disconnect print.
pub mod Base
pub mod Suppress
pub mod Protocol
pub mod Clipboard
pub mod State
pub mod Hub
pub mod Relay
pub mod Group
pub mod Net
pub mod Zsyncd
pub mod Tlsutil
pub mod Ipc
pub mod Daemon
pub mod Cli
