-- ===== src/Lib.antt =====
-- A verification library for the two programs of this repository: the scanner pqcscan, which asks
-- SSH and TLS servers for their post-quantum algorithms, and the analyser pqcdump, which reads the
-- same from captured packets.
--
-- The analyser slices a packet, joins the segments of its TCP flow and passes the payload to the
-- parsers of SSH and TLS messages, which fill the tables of sessions and hosts. The scanner reads
-- its targets, spawns tasks that take them from a channel and send results to another, collects the
-- results and writes a report.
--
-- - Base: shared types, tests and lemmas. `Outcome` has the values that Rust code can end with: a
--   result, an error, a panic (an index or slice out of bounds, `unwrap`), or no end (`hang`, when
--   a loop's fuel runs out). `Bytes` are lists of numbers, strings their UTF-8 bytes; `HashMap` is
--   an association list. An unsigned addition wraps around as in a release build.
-- - Wire: the SSH key exchange message of RFC 4253, described apart from the parsers.
-- - Dump.Tcp: pqcdump/src/tcp.rs.
-- - Dump.Packet: what is read of a packet that the crate etherparse has sliced.
-- - Dump.Ssh.Kexinit, Dump.Ssh.Sessions: pqcdump/src/ssh.rs, the parser and the session table. A
--   function on `&mut &[u8]` returns what it leaves of the slice.
-- - Dump.Tls.ClientHello: `parse_ssl_v3_client_hello` of pqcdump/src/tls.rs. Its loops run on fuel,
--   one more than the bytes of the block that they walk through; each round takes four bytes at
--   least, so it does not run out.
-- - Dump.Tls.Hosts: `process_ssl_hello` of the same file, with the tables that it fills.
-- - Dump.Capture: `process_packet` and `process_packet_helper` of pqcdump/src/main.rs and the loop
--   over a capture, from a sliced packet to the tables of sessions and hosts.
-- - Dump.Algorithms, Dump.Report, Dump.Report.Sessions: the part of `main` of pqcdump/src/main.rs
--   that gathers the report's hosts and sessions from the tables; the parser of socket addresses is
--   a parameter.
-- - Dump.Analysis: `main` of pqcdump/src/main.rs as a whole, from the captured packets to the results;
--   the embedded tables, the clock and the file's name are parameters.
-- - Dump.UniqueFile: `create_unique_file` of pqcdump/src/report.rs; what the file system answers
--   for a name is a parameter.
-- - Dump.ReportFile: `generate_report` of the same file, on a disk that gives each path its text; the
--   embedded templates and the engine that renders them are parameters.
-- - Dump.Tls.ServerHello: `parse_server_hello_v3` of pqcdump/src/tls.rs with the parsers of extensions,
--   key shares and signature algorithms, on fuel in the same way.
-- - Scanner.Hello, Scanner.Hello.Config: the ClientHello of pqcscan/src/tls.rs and the part of
--   `tls_connect_with_group` that sends it.
-- - Scanner.Target: targets, pqcscan/src/utils.rs and `get_targets` of pqcscan/src/main.rs.
-- - Scanner.Net: `socket_create_and_connect` of pqcscan/src/utils.rs, on the answers of a resolver
--   and of sockets.
-- - Scanner.Ssh.Kexinit, Scanner.Ssh.Scan: pqcscan/src/ssh.rs. A stream is the list of what its
--   successive reads give; where the list ends, the wait's timeout has run out.
-- - Scanner.Tls.Response, Scanner.Tls.Scan: the answer's half of `tls_connect_with_group`, and
--   `tls_scan_target`, of pqcscan/src/tls.rs, with the alerts of pqcscan/src/tlsconstants.rs. The
--   peer is a function from the bytes that it is sent to its answer.
-- - Scanner.Runner: `scan_runner` of pqcscan/src/scan.rs, a step relation in which any task or the
--   collecting loop may move; what a scan returns and which scans panic are parameters.
-- - Scanner.Csv, Scanner.Report: `create_report` and the CSV writer of pqcscan/src/main.rs. The
--   file system, the JSON reader, the times and the version are parameters.
-- - Scanner.Xml: the XML writer of the same file, with a reader of the part of XML that it uses in
--   Scanner.Xml.Reader; how times are printed is a parameter.
-- - Scanner.Main: `main` of pqcscan/src/main.rs behind the command line's parser, with the writers
--   of the report files and pqcscan/src/config.rs. A disk gives each path its text, and a write may
--   fail at any byte of a text; the JSON and HTML texts are parameters. Scanner.Main.Run is
--   `scan_runner` as `main` calls it: the steps of Scanner.Runner with the scans of Scanner.Ssh.Scan
--   and Scanner.Tls.Scan, where the runtime chooses the steps and the network is a parameter.
-- - Across: the ClientHello of the scanner, read by the analyser, and the two parsers of SSH key
--   exchange messages compared.
--
-- Not modelled: what only calls other libraries (capture files, the slicing of
-- packets, sockets, timeouts, the command line, logging).
pub mod Base
pub mod Wire
pub mod Dump
pub mod Scanner
pub mod Across
