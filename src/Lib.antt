-- ===== src/Lib.antt =====
-- A conveyor belt is watched by a kernel driver (conveyor_node.c), which writes one line per event to a
-- character device. A daemon (conveyor_event_daemon.py) parses each line, adds its node id, writes the
-- event as JSON, and publishes it over MQTT with a client of its own. A terminal subscriber
-- (broker/conveyor_subscriber.py) and a web server (broker/conveyor_web.py) read the messages from the
-- broker with their own copies of the same few helpers. scripts/fetch_debs.py fetches the Debian
-- packages of an offline installation.
--
-- The files, and what they model:
--
--   Prelude      names that the other modules share; Boolean tests, lists over native numbers, bits
--   Py           the standard library as the programs use it: exceptions, UTF-8, str methods, int,
--                struct, json.loads and json.dumps, the rendering of a time; a text is a list of code
--                points
--   Net          a TCP socket: what arrives, in segments, with silences (a timeout) and resets, and the
--                outcomes of the calls of sendall. Net.Stream is its byte view, without the segments
--   Wire         _enc_str, _enc_remlen, _recvn, _read_remlen of broker/conveyor_subscriber.py, the reading
--                of one packet (read_frame), and the packets that the programs write
--   Subscriber   mqtt_messages of broker/conveyor_subscriber.py: handshake, one round (read_packet), the
--                reading loop (read_loop), one connection, and the loop that connects again;
--                Subscriber.Display is main, which prints a line for each message;
--                Subscriber.Display.Columns describes the line by the driver's event
--   Event        _parse_value and parse_event of conveyor_event_daemon.py, and json.dumps of an event
--   Driver       the states, their debouncing (fusion_work_fn, set_fused_state, tilt_eval_work_fn), the
--                event ring (push_event, node_read) and the line of node_read, of conveyor_node.c;
--                Driver.Schedule has the two workers side by side, cut at their locks; Driver.Sensors has
--                the average of the light, the test of the distance, and the phases of an echo
--   Publisher    MqttPublisher of conveyor_event_daemon.py
--   Daemon       main of conveyor_event_daemon.py, and the theorems that join it to Subscriber
--   Debs         parse_index, resolve, download_debs and main of scripts/fetch_debs.py;
--                Debs.Index.RoundTrip has the text of a Packages file, by its entries
--   Web          the shared state of broker/conveyor_web.py: _broadcast, the history, and the loop of
--                _serve_sse, as actions that the locks make atomic, in any order; do_GET; Web.Stream is one
--                call of _serve_sse, from its snapshot on; Web.Reader is
--                _mqtt_reader, from the bytes of the socket to the events that it stores; Web.Convert has
--                JavaScript's conversions; Web.Page is the script of the page, whose statements throw where a
--                value has no text; Web.Page.Look describes the page by the driver's events
--
-- Conventions. Python raises: an operation returns a Result, whose error is the class of the exception.
-- An action on a socket (Io) also returns the socket as it is then, on errors too. The broker, the
-- clock, and the outcome of create_connection are not code of the repository and are arguments: the
-- arrivals of a socket, the text of time.time(), an Attempt, the outcome of making the output directory
-- and of each download, and whether copy_to_user takes a line. The terminal takes UTF-8.
--
-- Fuel. enc_remlen has n + 1 rounds for the number n, which each round divides by 128; recvn has n + 1
-- for n bytes, of which each round reads one at least; a connection has one more than there are bytes
-- and silences to come, of which each round takes one at least; resolve has one more than the roots and
-- all dependencies in the index, each of which is queued once at most. The answer `stuck` (or `none` in
-- resolve) stands for fuel that ran out.
--
-- Bounds. The numbers of an event are unbounded, where the driver has a u64 for ts_ns and a u32 for
-- reason_flags. The streaks of the driver wrap at 2 ^ 32. A float is kept by its decimal form. What
-- time.localtime makes of a number depends on the time zone, and is an argument.
--
-- json.loads has fuel for twice the length of its text, since two calls within each other have taken one
-- character at least; the limits of the interpreter on nesting and on the digits of a number are left out.
--
-- Not modelled: the style sheet of the page and the dot for its connection; the download of the package
-- index; the driver's hardware access, procfs, probe and remove; conveyor_monitor.c (it copies the device
-- to the terminal); the build and deployment scripts; argument parsing, sleeping and progress messages.
pub mod Prelude
pub mod Py
pub mod Net
pub mod Wire
pub mod Subscriber
pub mod Event
pub mod Driver
pub mod Publisher
pub mod Daemon
pub mod Debs
pub mod Web
