-- ===== src/Lib.antt =====
-- adb_client: a client of the Android Debug Bridge. This library models its parts as functions on
-- explicit states, and proves what they promise.
--
-- Parts
--
-- The crate adb_proto is the protocol without any I/O. A driver feeds the bytes that it receives to a
-- session, drains the packets to send and the events, and calls the methods of the session.
--   Proto/Kinds         adb_proto/src/error.rs, and the enumerations of the other files
--   Proto/Message       adb_proto/src/message.rs: Packet, checksum, PacketDecoder
--   Proto/Session       adb_proto/src/session.rs: Session and its methods; Session/Banner has
--                       DeviceBanner::parse, Session/Receive has handle_input and handle_packet
--   Proto/Sync          adb_proto/src/sync.rs: requests, DATA frames, SyncReader, parse_status
--   Proto/Examples, Proto/Sync/Examples
--                       the models at concrete packets
-- The message devices of the crate adb_client talk to a device over a transport, without a server.
--   Client/Kinds        adb_client/src/message_devices/message_commands.rs, and errors
--   Client/Message      adb_client/src/message_devices/adb_transport_message.rs: headers and their
--                       checks; the encodings of message_commands.rs
--   Client/Dispatcher   adb_client/src/message_devices/transport_dispatcher.rs: run_loop, one turn for
--                       each command or read; Dispatcher/Relay has relay
--   Client/Session      adb_client/src/message_devices/adb_session.rs: ADBSession and push_file;
--                       Session/Copy has copy_sync_file
--   Client/Dispatched   adb_client/src/message_devices/dispatched_device.rs: services and their bytes;
--                       Dispatched/Shell has shell_command and pull, Dispatched/Drain has drain_to
--   Client/Forwards     dispatched_device.rs: the forward rules, as steps of the calls of serve_forward
--                       and remove_forward; Forwards/Connection has forward_connection
--   Client/Wireless     adb_client/src/wireless.rs: the checks and packets of pairing; Wireless/Scalars
--                       has multiply_raw and the scalars, Wireless/Spake the key exchange
--   Client/KeyFile      adb_client/src/message_devices/models/adb_rsa_key.rs: the file of the host key, as
--                       steps of the processes that look for it
--   Client/PublicKey    the same file and adb_proto/src/auth.rs: the public key in Android's format
--   Client/Device       adb_client/src/message_devices/adb_message_device.rs: connect, sessions, reverse
--                       rules; Device/Listing has commands/list.rs
--   Client/ReverseRelay adb_client/src/message_devices/reverse_relay.rs: ReverseRelay, on what each
--                       round of its loop finds
--   Client/Examples     the models at concrete inputs
-- The crate adb_cli is the program. Its command line for another program is adb_cli/src/compat.rs; the
-- connection to a USB device is kept by a daemon, adb_cli/src/direct_daemon.rs.
--   Cli/Selector        compat.rs: transport ids, and the names of devices
--   Cli/Requests        compat.rs: the arguments of install, uninstall, pull and push
--   Cli/Shell           compat.rs: the commands for the shell of a device; Shell/Reader says how a
--                       shell cuts a command into words
--   Cli/Direct          compat.rs: the commands for a USB device as requests to the daemon
--   Cli/Daemon          direct_daemon.rs: Daemon/Stream has stream_operation and decode_stream,
--                       Daemon/Input has FramedReader, Daemon/Request and Daemon/Handle have handle
--   Cli/Examples, Cli/DaemonExamples
--                       the models at concrete inputs
--   Base                bytes, maps, results, words, numbers in text, decoding of UTF-8, white space
-- The other files below these hold lemmas and theorems. The dispatcher, the
-- session and the relays of adb_client make their messages with Client/Message. Cli/Direct makes its
-- requests from what Cli/Requests parses, and Cli/Daemon answers them.
--
-- State and operations
--
-- A struct is a record with the source's fields, a method a function that returns the new state, with
-- the result beside it where the method has one. Bytes are natural numbers; a `u32` sum or counter is
-- taken modulo 2^32, as the release profile does. A `BTreeMap` or `HashMap` with `u32` keys is an
-- association list, whose laws are in Base/NatMap. A `VecDeque` is a list, front first. Text is its
-- UTF-8 bytes. An error text that the source formats is its template with the values put into it.
-- A panic is a value where a theorem speaks of it: `none` for `expect` in encode_header and in the
-- requests, `panic` for `clamp` in handle_packet, `panicked` for a slice out of range in the list of a
-- directory, an error of its own for `assert!` in into_bytes.
--
-- Loops and fuel
--
-- The loop of handle_input runs on fuel, one more than the bytes in the decoder: each packet takes at
-- least one byte or a pending header. `chunks` runs on the length of the file. A driver that drains a
-- SyncReader is given two calls more than the file has bytes. copy_sync_file has one round more than
-- its input has bytes, and a round takes eight of them at least. allocate_local_id has the 2^32 - 2
-- rounds of the source. The decoder of the daemon's stream has one round for each byte, and a frame
-- takes four bytes at least; the chunks of a write are not more than its bytes. A service is read with
-- as much fuel as its channel has packets; shell_command and pull have one round more than the channel
-- brings bytes, and a round takes five of them at least. handle_list is given at least one round more
-- than there are entries.
--
-- Channels, transports and sockets
--
-- The channel of a session is the list of the messages that were sent into it. run_loop and relay are
-- given what each read and each call comes to, in turn; every combination of successes and failures
-- can be given. A transport of Client/Session is a list of what its reads return and a function that
-- tells how each write ends. A HashMap that is only searched for a key or a value is a list of pairs.
--
-- Not modelled
--
-- AdbKey of adb_proto/src/auth.rs and ADBRsaKey of adb_client end in libraries: a session takes the
-- calls of a key as fields of a record, and the libraries for PEM, big integers and base64 are fields
-- of records too. Each call of the file system on the host key is one atomic step, and its directory
-- is there. The daemon is given the operations of its device, the local files and the texts of Rust's
-- own errors as the fields of records, and so is pairing given the points of the curve and the hash. A
-- connection is the bytes that the peer sends until it closes its end, and a write to it does not
-- fail. Threads are left out but for the calls of Client/KeyFile and Client/Forwards, and so are
-- timeouts and log lines. Of pairing, the cipher and the TLS connection are not modelled. The rest of
-- the crates adb_client and adb_cli, and pyadb_client, which drive sockets, USB, TLS, files and the
-- terminal, are not modelled.
pub mod Base
pub mod Proto
pub mod Client
pub mod Cli
