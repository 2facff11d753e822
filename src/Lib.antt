-- ===== src/Lib.antt =====
-- GoReplay captures HTTP traffic, filters and rewrites it, and replays it. This library models the
-- parts of it that decide on bytes and state.
--
-- - Base: byte slices as lists of numbers. A slice expression out of range is `panic`, and a loop
--   that used up its fuel is `timeout`; a slice's capacity is taken to be its length.
-- - ByteUtils: byteutils/byteutils.go (Cut, Insert, Replace), with `copy` and `append` written
--   out. A result is a new list: that the Go functions may write into the array of their argument
--   is not modelled.
-- - Proto.Headers: the header section in proto/proto.go. `header` is `find_line` (its first loop),
--   `trim_start` and `trim_end` (the two trimming loops) and `locate`; Header is `header_value`.
--   Fields.antt is the abstract view, a list of fields, and Edits.antt relates it to the byte
--   operations. The loops get one unit of fuel more than the payload has bytes, and each round
--   passes a byte at least. bytes.EqualFold is modelled on ASCII text.
-- - Proto.Chunked: atoI and CheckChunked. The size is a 64-bit pattern, since it can wrap; one
--   round is `size_line` and `chunk_round`. The fuel is one more than the length of the body,
--   which is enough for every encoded body; for a size that wraps no fuel is enough.
-- - Proto.Payload: Body and HasFullPayload.
-- - Proto.Title: Method, HasRequestTitle, HasResponseTitle and HasTitle in proto/proto.go.
--   http.ParseHTTPVersion is taken in the form that reads eight bytes, http.StatusText is the
--   table of Status.antt, and strconv.Atoi reads the three bytes of a status.
-- - Proto.Path: Path, SetPath, PathParam, SetPathParam and SetHost. The position -1 of a missing
--   byte is written out where the Go code computes with it.
-- - Tcp.Message: Message and its methods in tcp/tcp_message.go; a packet has the fields that these
--   and the pool read, with the sockets as texts. Sizes are natural numbers and do not wrap. SHA-1
--   is a parameter of `uuid`.
-- - Tcp.Decode: ParsePacket, SYNOptions and Flag in tcp/tcp_packet.go; the layers that gopacket
--   decodes are its argument.
-- - Tcp.Segment: IHL, Length and the count of lost bytes in tcp/tcp_packet.go, on the numbers of
--   the decoded headers.
-- - Tcp.Pool: MessagePool in tcp/tcp_message.go. `handle` is Handler up to its return or the first
--   operation on a channel, `add_packet` (`fill` and `is_last`) is addPacket, `deliver` and
--   `time_out` are the two ways of dispatch, and `Step` is one step of any goroutine: a packet
--   arrives, a timer fires, two goroutines meet on m.done. Messages stand in a list of slots, and
--   the pool's map has their places in it. Handler runs in one goroutine at a time, since it holds
--   the lock. The handler is a function that returns, a hint can also panic or not return, and
--   Handler then does the same; the debugger is left out. A message also keeps the packets as they
--   arrived, which the code does not, so that their order can be stated. When a timer fires is
--   free: the duration is stored and not compared.
-- - Modifier: HTTPModifier in http_modifier.go with the configuration of
--   http_modifier_settings.go. `rewrite` is Rewrite: the methods, the settings of headers and
--   parameters, `filters`, and the rewrites of path and headers, in that order; an empty result
--   drops the request. A compiled regular expression is a record of its two methods, and the FNV
--   hash and the base64 decoder stand in a record of the configuration.
-- - Limiter: parseLimitOptions, NewLimiter, isLimited, Write and Read in limiter.go; the clock and
--   the random number of a call are its arguments. A difference of times below 0 is 0 here.
-- - Text: what the code uses of Go's strings, bytes, strconv and encoding/hex.
-- - Protocol: protocol.go. Stream.antt is handleConnection of input_tcp.go on the bytes of a
--   connection, with a unit of fuel for each line and each record; a run of as many rounds as
--   there are bytes reads all of them.
-- - Middleware: copy, read and Read of middleware.go on the streams of the process; `prettifyHTTP`
--   is a parameter.
-- - Emitter: CopyMulty in emitter.go; a read with its time gives a round, and a round gives the
--   writes with the places of their writers. The modifier edits in the read buffer, which is taken
--   to have room.
-- - HttpOutput: output_http.go. `write` is Write, `add_workers` a round of workerMaster, and
--   `Step` a step of any goroutine of the output, where a worker's test of the count and its
--   decrement are two steps, and a worker that sees the stop of Close leaves without the
--   decrement. Numbers of workers are natural numbers. The session workers of the PRO version are
--   left out.
-- - FileOutput: output_file.go. `filename` is filename with the expanded template and the matches
--   of filepath.Glob as arguments, `write_named` is Write behind updateName, and `Step` has the
--   parts of a round of the flushing goroutine between which a Write can come. Numbers in names do
--   not wrap.
-- - Modifier.Options: the Set methods of http_modifier_settings.go; each gives the list behind it
--   and its error. regexp.Compile is an argument.
-- - FileInput: input_file.go. A reader is the bytes that are still to be read, with the record
--   that was read last; `parse_next` is parseNext, `next_reader` nextReader and `emit` the loop of
--   emit without Close, with a unit of fuel for each record. Differences of times do not wrap, and
--   the channel takes every payload.
-- - Plugins: plugins.go. A plugin is its kind with its options; `planned` is the order of the
--   calls in NewPlugins. Roles.antt is about the lists of inputs and outputs.
-- - Size: size/size.go; the expressions are written out as tests of bytes.
-- - TcpOutput: output_tcp.go, one operation on a queue at a time; Range.antt is about the index of
--   the queue.
-- - BinaryOutput: output_binary.go; Times.antt is about the numbers in the header of a response.
-- - Kafka: the messages of kafka.go and output_kafka.go; Dump.antt is about reading the text of a
--   message. The fields of a header are a list, since a Go map has no order.
-- - RawInput: input_raw.go; `read_raw` is Read of a message of Tcp.Message, with SetHeader of
--   Proto.Headers and the header of Protocol.
-- - HttpClient: http_client.go. A connection is the list of what its reads will answer, each with
--   its error, and the list of connections that dialling gives is part of the client; a panic,
--   which Send recovers from, is `panic`. Receive.antt is the loop of send (`receive`, a round is
--   `one_round`): a read into the buffer is `round_within` and one past it `round_beyond`. Its
--   fuel is a bound on the number of reads, two for each byte to come and one for each answer;
--   Send has a unit of fuel for each request. Prefixes.antt, Parts.antt, Whole.antt and
--   Delivery.antt are about a response of known length that comes in parts, and ChunkedEnd.antt
--   about a chunked one.
-- - Elasticsearch: elasticsearch.go, behind url.Parse and in front of the indexer.
-- - Prettifier: http_prettifier.go, with ParseHeaders of proto/proto.go; what these call of
--   net/http, gzip and net/textproto is a record of functions. A result is a new list, where the
--   Go code appends to a part of its argument.
-- - TcpClient: tcp_client.go, on the same connections.
-- - Capture: capture/capture.go. Handles.antt opens the handles; libpcap and the raw socket are a
--   record of what their calls answer. Readers.antt is Listen with the goroutines of read and
--   closeHandles as a step relation; the channel of packets has its capacity of 1000, and which
--   goroutine runs is free.
-- - Stat: GorStat in gor_stat.go; the numbers written are not negative.
-- - Not modelled: TLS, the handshake with a proxy and the compatibility mode of http_client.go,
--   capture/sock.go, capture/dump.go, the S3, dummy and null plugins and gor.go, which are for the
--   most part calls of the network, of pcap or of libraries; proto.ParseHeaders, whose work
--   net/textproto does; and the values that only appear in log lines.
pub mod Base
pub mod ByteUtils
pub mod Proto
pub mod Tcp
pub mod Modifier
pub mod Limiter
pub mod Stat
pub mod Text
pub mod Protocol
pub mod Middleware
pub mod Emitter
pub mod HttpOutput
pub mod FileOutput
pub mod FileInput
pub mod Plugins
pub mod Size
pub mod TcpOutput
pub mod BinaryOutput
pub mod Kafka
pub mod RawInput
pub mod HttpClient
pub mod TcpClient
pub mod Elasticsearch
pub mod Prettifier
pub mod Capture
