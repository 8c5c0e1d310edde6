-- ===== src/Lib.antt =====
-- libnhttp, an HTTP server library in C++: its wire formats, its HTTP/2 connection, its router
-- and its streams.
--
-- The program. A server accepts connections (src/server), speaks HTTP/1.1, HTTP/2 (src/http2,
-- src/server/connection_h2.cpp) or WebSocket (src/ws) on them, and hands requests to a router
-- (src/router) and its extensions. What stands here are the parts that turn bytes into values and
-- back (WebSocket and HTTP/2 frames, the header compression HPACK, through which the headers of
-- every HTTP/2 request and response go, chunk headers, the URL code, through which every
-- request's path goes), the frame loop and the flow control of an HTTP/2 connection, the
-- router, which chooses the handler of a request, the streams in memory that carry bodies
-- and ranges of them, the messages of HTTP/1.1, the extensions that the server asks in turn, and
-- the files that one of them serves.
--
-- Base: shared names. Bytes are numbers below 256 in a list; `u8`, `u16`, `u32` and `u64` write
-- out the wrap-around of the machine types. Bit operations are the native ones.
--
-- Http2.Frame models src/http2/frame.cpp, function by function under the same names. A buffer that
-- the source passes as pointer and length is the list of bytes from the pointer on; a read past
-- its end, which the source leaves to its callers, is `none`, and so is a result `false`.
-- An `out` string that a writer appends to is an argument that it returns longer.
--
-- Http2.Hpack models src/http2/hpack.cpp, include/nhttp/http2/hpack.hpp and the tables of
-- src/http2/hpack_tables.hpp:
-- - Tables: the static table. Reader: `bit_reader`.
-- - Huffman: `huffman_tree` (the trie is built by the same insertions, as a tree in place of
--   indices into a vector) and the packing loop of `write_string`. The inner packing loop runs on
--   fuel, one round for each byte that can be emitted.
-- - Integer: `read_integer` and `write_integer`. The writer recurses on `Acc` of `<`.
-- - Decoder: the class `hpack_decoder`. The deque is a list with its front first. The eviction
--   loop has as many rounds as the table has entries, and each takes one off; `decode` has as
--   much fuel as the block has bytes, and each instruction takes one at least.
-- - Encoder: `hpack_encoder::encode` and `write_string`.
--
-- Protocol.UrlEncode models src/protocol/urlencode.cpp. The decoder looks at the characters
-- that are ahead where the source advances its index by two.
--
-- Protocol.Chunked models src/protocol/http_chunked.cpp: the chunk headers, and in Decoder the class
-- `chunked_decoder_stream`. The loop that writes the digits runs on fuel, 16 rounds, one for every
-- four bits of a `size_t`. The source of a decoder is the list of the results of its reads. The loops
-- that fill the buffer have a round for each of them and two more; that of `read` has a round for
-- each byte that can come and two more, since every round but the first takes a line, and
-- that of the trailers likewise.
--
-- Protocol.HttpStatus, Protocol.HttpDate and Protocol.MimeType model the status lines, the dates,
-- and the types of files and of contents, with the parameters of headers, of src/protocol.
-- `gmtime` and `timegm` are parameters; a date's year has six digits at most, for which the buffer
-- of the source has room. Base.Decimal is `std::to_string` and `%0wd`, on a fuel of one more than
-- the number.
--
-- Protocol.HttpMethod models src/protocol/http_method.cpp, and Protocol.HttpHeader
-- src/protocol/http_header.cpp, with `memchr`, `strncasecmp` and `tolower` as the C library
-- describes them. Protocol.QueryString models src/protocol/http_query_string.cpp, whose loop runs on
-- fuel, the length of the string, and Protocol.Resource src/protocol/http_resource.cpp.
--
-- Router models src/router. A node of the trie is the value of its fields, and a change of a node
-- that the source reaches by a pointer is a change at its place of the tree. Captures: the map of
-- captures. Route: `route_match`; Route.Child: `child`, whose loop runs on fuel, the length of the
-- path, while each round takes a character at least. Targets: the targets of a route. Middleware:
-- `middleware_stack`, whose `invoke` has as much fuel as the stack has middlewares. Dispatch:
-- the registrations and `on_handle`. Handlers and middlewares are functions of the request.
-- Route.Child.Lookup says which nodes a tree has under a list of names.
--
-- Io models src/io: Stream is the interface with what a seekable stream promises, Memory is
-- `memory_stream`, Range is `range_stream` over any stream.
--
-- Server.H2 models src/server/connection_h2.cpp: its state (the map of streams is a list), Headers and
-- Windows the handlers of frames, Loop the frame loop, Lock the writer lock, Sender how a chunk of a
-- body is cut into frames, where other coroutines run while a frame is sent. A handler of a frame runs
-- to its end in one step; what it sends, the streams whose handlers it starts and the coroutines
-- that it wakes are lists in the state. What the started handlers do later, the response and the
-- erasure of the stream, is not part of the loop. The wire is the list
-- of the bytes that come before its end; the loop has one round more than bytes, since a frame
-- takes nine. The windows are integers without a bound: an int64_t that overflows is not modelled.
-- The header decoder is an argument, a step on a state of its own.
--
-- Server.Response is include/nhttp/server/response.hpp and src/server/response.cpp. Server.Http1
-- models the messages of HTTP/1.1: Headers is `read_headers` of src/server/http1_io.cpp, Body its
-- `write_all` and `write_message_body`, Framing what `make_body_stream` chooses there and
-- `write_response` of src/server/connection.cpp, and Connection its loop `run`, whose fuel is the
-- number of requests, with `buffered_wire_stream` of include/nhttp/server/http1_io.hpp: there the
-- handler is given the whole body, which the source reads in the handler and behind it. The wire
-- is the list of the results of its reads, of 4096 bytes at most, for which each of them asks;
-- what is written is a list of bytes, but in `write_all`, whose wire may take a part of what it is
-- given. What `sendfile` sends of a body that is a file is a parameter. The fuel of the loops that
-- write is an argument, and the theorems say how much is enough.
--
-- Server.StaticContent models src/server/extensions/static_content.cpp over any stream: QualifyPath
-- turns the path of a request into one below a directory, Etags and RangeHeader read the headers, and
-- Serve is `serve_stream_conditionally`, with the dates of Protocol.HttpDate. An int64_t that
-- overflows in a range header is undefined, and ends the model.
--
-- Server.Extensions models src/server/extension.cpp (Registry) and, of src/server/extensions, overlay.cpp
-- (Overlay) and single_file.cpp (SingleFile), which use all of Server.StaticContent, and vpath.cpp
-- and vhost.cpp (Vpath), which have a registry of their own; `stat_file` and the files that can be
-- opened are parameters.
--
-- Ws.Connection and Ws.Receive model the class `ws_connection` of src/ws/connection.cpp. The
-- wire (an io::stream) is the list of the results of its reads, and the bytes written to it. The
-- reading loop of `read_exact` has one round more than reads are left in that list, which is
-- enough, since every round but the last takes a read off; the loop of `receive` has one round
-- more than bytes can come, since a frame takes two bytes at least. The masking that the theorems
-- speak of is stated from RFC 6455 by rotating the key.
--
-- Not modelled: the responses of the HTTP/2 connection; the system's `sendfile`; multipart bodies; the reverse
-- proxy and the handshake of a WebSocket; group_proxy (it keeps pointers into the trie); file
-- streams; and the parts that are sockets, threads, TLS and operating system calls. What a decoder
-- leaves in a C++ string that it was given when it fails is not modelled either, since no caller
-- reads it.
pub mod Base
pub mod Http2
pub mod Io
pub mod Protocol
pub mod Router
pub mod Server
pub mod Ws
