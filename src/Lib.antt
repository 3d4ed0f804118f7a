-- ===== src/Lib.antt =====
-- httpdump: a verification library for the logic of the capture tool. The program reads TCP
-- packets, puts each direction of a connection together, finds the HTTP messages in it, filters
-- them and sends their text on to files, to other servers or to a page; it can also replay the
-- requests of a file.
--
-- The parts, and the files that model them:
--
--   Tcp        handler/tcp_assembly.go. Tcp/Seq is compareTCPSeq. Tcp/Window is ReceiveWindow, a ring of
--              packets, with insert, confirm and expand; Tcp/Queue is its specification, a list of the
--              packets in order, and Tcp/Window/Insert, Confirm and Run relate the two. Tcp/Stream is
--              NetworkStream and FakeStream, Tcp/Connection is TCPConnection (onReceive), Tcp/Assembler is
--              TCPAssembler (Assemble, FlushOlderThan, FinishAll), Tcp/Label the UUID of a packet, and
--              Tcp/Assembler/Flush the loop LoopPackets of util/pcap.go that calls it.
--   Http       util/http.go. Http/Title is ParseRequestTitle, ParseResponseTitle and atoI, Http/Header is
--              header, Http/Payload is HasFullPayload and Http1EndHint. Http/Std writes out what they use
--              of net/http.
--   Filter     Filter/Wildcard is wildcardMatch and Filter/Mime the content types of
--              handler/text_utils.go, Filter/IntSet is util/intset.go, Filter/Options the methods of
--              Option in handler/option.go.
--   Handler    handler/handler_base.go. Handler/Loop is handleRequest and handleResponse, Handler/Base
--              what they do with a message, Handler/Pairs is rrSender, Handler/Format what printRequest
--              and printResponse write. Handler/Fast is ConnectionHandlerFast of handler/handler_fast.go
--              with its wait group, NewBase and Senders; Handler/Flow the channel between a stream and
--              its reader; Handler/Beans ReqToJSON, RspToJSON and ReadTextBody; Handler/Std the two loops
--              of the standard assembler in handler/handler_std.go.
--   Replay     Replay/Payload, Replay/Lines and Replay/Title are replay/payload.go and replay/title.go:
--              the lines of a file, the payloads in them, and the titles that begin them; Replay/Threads
--              the two goroutines of ReadPayloads. Replay/Client is HTTPClient.Send, Replay/Serve
--              StartReplay, createParseOptions and Sender, Replay/Files the files and tails of
--              replay/replay.go and replay/tail.go, Replay/GlobPath globpath/globpath.go.
--   Web        sse.go: Web/Event is ParseHTTPEvent and SSESender, Web/Page SSEWebHandler.
--   App        main.go: what the flags come to.
--   Capture    util/ip.go and util/pcap.go: Capture/Device is the expression of setDeviceFilter,
--              Capture/Interfaces ListInterfaces and CreatePacketsChan, Capture/Merge mergeChannel.
--              Capture/Tool is cmd/pcap/main.go.
--   Base       Go's panics as a result (Base/Run), slices and strings as lists of bytes (Base/Text),
--              signed numbers (Base/Int), and lists measured by native numbers (Base/Lists).
--
-- The parts meet where the code calls across them: a connection asks Http whether a payload begins
-- a message, the assembler gives the packets of a stream to its channel, the handler's loops read
-- the payloads of that channel, ask Http and Filter, and call the senders. What the handler sends is
-- read again by the replay, which finds the requests in it, and by the web page, which reads the line
-- that begins it.
--
-- State and effects: a function that changes a struct returns the new struct. A channel is the
-- list of what was sent into it and whether it is closed; a send or a second close after that is a
-- panic, and so is a slice or an index out of range. A lock makes a call one step. uint32 numbers
-- wrap at 2^32, int32 and int counters as the code has them. Times are numbers, and a float64 of the
-- flags is a fraction. Goroutines that run beside each other are a relation of steps: those of
-- ReadPayloads, of mergeChannel, of a stream and its reader, and those that the wait group counts.
--
-- Loops: those over a list or a buffer recurse on it. wildcardMatch has fuel for each place of the
-- text with the whole pattern, header one round for each byte of the payload, the scanner of lines
-- one for each byte. That is enough, since a round of the first moves on in the pattern or takes
-- the asterisk to the next place of the text, and a round of the others takes at least a byte. The
-- loops of the standard assembler have fuel for a message in each byte of the stream. A range of
-- addresses has fuel, for a loop that does not always end.
--
-- The scanners of lines end with an error at a line that fills their buffer of 64 KB; the replay has
-- that (Replay/Lines), and the page's parser (Web) is modelled for messages without such a line. What
-- the replay's scanner sends lies in its own buffer, which it moves while the reader still uses it only
-- for texts of more than 2,048 bytes. The model takes every line as it was sent; what is shown of
-- ReadPayloads and of the payloads that are sent is about texts of at most that size. Spaces are those
-- of Unicode where the code calls strings.Fields and strings.TrimSpace.
--
-- Parameters: the parsers of httpport (a copy of Go's net/http) and of net/http, the decoders of
-- bodies, the marshalling to JSON, the clock, the limiter, the random numbers, strconv.Atoi, the
-- helpers of gg, the exchange with a server, libpcap and the devices, the matchers of glob patterns,
-- the library that tails files, and the file system.
--
-- Not modelled: httpport itself, and what only starts, logs or calls a library: the parser of the
-- flags, the signals, the web server and its template (main.go, sse.go), TcpStdAssembler
-- (handler/handler_std.go), the timeout and TLS of the HTTP client, logTitle (replay/replay.go), and
-- the recover of OpenSingleDevice (util/pcap.go). The capacity of a channel stands in Handler/Flow
-- alone, from one place on; elsewhere a send into a full channel, which waits for its reader, is a
-- send.
mod Base
pub mod Http
pub mod Tcp
pub mod Filter
pub mod Replay
pub mod Web
pub mod App
pub mod Handler
pub mod Capture
