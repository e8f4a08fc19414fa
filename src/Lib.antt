-- ===== src/Lib.antt =====
-- exfiltrate lets a command line program run commands inside a program that is being debugged. A
-- native program serves TCP connections itself. A program in the browser cannot; there the proxy
-- accepts the TCP connections and passes their messages to and from one WebSocket of the browser.
--
-- Which file models which part:
-- - Wire: exfiltrate_internal/src/wire.rs. `InFlightMessage` holds the bytes received; `read_stream`
--   and `pop_msg` are its methods, `send_socket_frame` and `write_all_robust` the sending side.
-- - Response: exfiltrate_internal/src/command.rs. `split_data` takes the binary data out of a
--   response, `merge_data` puts it back; `new_image` is `ImageInfo::new`.
-- - Rpc, RpcWire: exfiltrate_internal/src/rpc.rs and `send_socket_rpc`. `Codec` is rmp_serde.
-- - Server: exfiltrate/src/commands.rs, commands/, lib.rs, logwise.rs (the state `Host`: the
--   registry and the log records) and wire/server.rs (`do_command`; `do_stream` is the thread of one
--   connection, Server/Listener is `new_tcp` and the threads of all connections, Server/Process the
--   process around them, which `terminate` ends). Program: `begin` and the static `SERVER`.
-- - Browser: exfiltrate/src/wire/server/wasm32.rs. `on_message` is the callback, with the messages
--   that it sends as its result; `Page` is the worker thread and its sockets as an event
--   machine, `run_worker` what it comes to, message by message. Browser/Sending has the sends that
--   fail, Browser/Start `wasm32_go`.
-- - Client: exfiltrate_cli/src/wire/client.rs. `pop_msg` waits for a reply, `recv` is the thread
--   wire_client_recv; Cli/Beside has both with the lock that they share.
-- - Proxy/Tcp: exfiltrate_proxy/src/tcp.rs. `run` is the distributor's list of clients under events
--   in any order, `writer_loop` and `reader_loop` are the threads of one client.
-- - Proxy/Frame: the frames of exfiltrate_proxy/src/websocket.rs (`parse`, `from_bytes`, `to_bytes`).
-- - Proxy/Socket: `Websocket::read` of the same file, with the messages that it returns.
-- - Proxy/Http: `HTTPParser` of the same file, on ASCII text. Proxy/Handshake: `do_http_stream`,
--   which feeds it; `sha1_base64` stands for the crates that hash the key.
-- - Proxy/Bridge: the threads that exfiltrate_proxy/src/main.rs starts, together. `Bridge` is what
--   they share (the two channels, the list of clients, the streams); `Step` is what one thread does
--   between two looks at it, so that a `Run` is one order of their turns among all. Proxy/Bridge/Start
--   is `main`.
-- - System: the tool, a run of the proxy and the page in the browser, joined: what one writes is what
--   the next one reads.
-- - Browser/Handshake: the fetch that wasm32.rs makes to find out why a socket failed.
-- - Debug: the example program exfiltrate/examples/debug.rs.
-- - Cli: exfiltrate_cli/src/main.rs, help.rs, local_commands/ and the use of `CLIENT`. `dispatch` and
--   `main` are the functions of main.rs; `Setting` and `World` hold what they take from outside
--   (codec, markdown texts, random names, file system, webp encoder). Cli/Call joins both ends of a
--   connection.
-- - Stream, Loop, Common: the conventions below. Samples: the codec of the tests.
--
-- How they meet: the client and the server use Wire on both ends of TCP, the proxy's threads use it
-- between TCP and its channels, and Proxy/Frame between the browser and these channels. The client
-- merges what the browser's server has split off.
--
-- Conventions. A byte is a number below 256, and text is the list of its UTF-8 bytes. A stream is a
-- script of what the system answers to each `read` (bytes, none of them at the end of the stream, or
-- an error), `write` and `set_nonblocking`; theorems quantify over the scripts, so over every way to
-- cut the bytes. A panic is a value, `panic`, and with it the overflow of an addition, as in a build
-- with overflow checks. A `usize` has 64 bits. Fallible code returns `Outcome`, whose `err` carries
-- the kind of the I/O error.
--
-- Loops. The loops on a stream run for a number of rounds and then are still `running`, `pending`
-- or `waiting`. The theorems about results give a number of rounds that is enough (`work_left`: the
-- bytes buffered, twice the bytes to come, and the calls that the script still holds), and they say
-- that the loop returns by then. `parse` and `from_bytes` take a round for each byte and one more;
-- that is proved to be enough for `parse`, which never runs out. All else is structural recursion.
--
-- Not modelled: the system itself (spawning, sleeping, the clock, what is printed), the third-party
-- crates (rmp_serde is the parameter `Codec` with its round trip as a law), and JavaScript objects.
-- The browser's own WebSocket is a function that gives back the messages of frames, and sends the
-- page's messages in any frames of RFC 6455.
pub mod Common
pub mod Stream
pub mod Loop
pub mod Wire
pub mod Response
pub mod Rpc
pub mod RpcWire
pub mod Server
pub mod Browser
pub mod Client
pub mod Proxy
pub mod System
pub mod Cli
pub mod Debug
pub mod Program
pub mod Samples
