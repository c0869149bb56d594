-- ===== src/Lib.antt =====
-- The C core of callwire, a remote procedure call library over MessagePack frames, and the wrappers
-- over it for C++ and COBOL.
--
-- The program and its model, by file of the repository:
--   c/include/callwire.h: values and messages, in Value.antt.
--   c/third_party/mpack_stub.h: the MessagePack writer and reader, in Mpack/Writer.antt,
--     Mpack/Reader.antt, Mpack/Skip.antt and Mpack/Widen.antt. A function mpack_write_x is write_x, and
--     mpack_try_read_x is try_read_x, which returns none where the C function returns 0. Mpack/Format
--     says which bytes stand for which value, as the reference for both.
--   c/src/codec.c: values and messages as payloads, in Codec/Encode.antt, Codec/Decode.antt and
--     Codec/Parse.antt; callwire_codec_x is encode_x or codec_decode.
--   c/src/framing.c: payloads as frames on a socket, in Framing.antt.
--   c/src/errors.c: the error text of a thread, in Errors.antt.
--   c/src/client.c: the calls of a client, in Client.antt, where callwire_client_x is x, and its
--     beginning and end in Client/Lifecycle.antt.
--   c/src/convenience.c: calls with integers or a string, in Convenience.antt.
--   c/src/cli.c: the command that writes callwire.toml, in Cli.antt.
--   cobol/src/cobol_shim.c: calls from COBOL and handlers in COBOL, in Cobol.antt, and their exports
--     in Cobol/Exports.antt; callwire_cobol_x is cobol_x.
--   cpp/include/callwire/callwire.hpp: the class Value in Cpp/Values.antt, Client in Cpp/Calls.antt,
--     the typed handlers and the trampolines in Cpp/Handlers.antt, and Server in Cpp/Exports.antt. A
--     method is named as in the source, with words for its capitals: deepCopy is deep_copy.
--   c/src/server.c: the exported functions in Server/Registry.antt, the inputs of stream calls in
--     Server/Input.antt and Server/Connection.antt, the threads that run handlers and
--     dispatch_request in Server/Dispatch.antt, the read loop of a connection in Server/Loop.antt,
--     the loop with all its threads, in any order of their steps, in Server/Interleaving.antt (where
--     the search of the loop for an input and its push are two steps), and
--     callwire_server_new, _serve and _close in Server/Lifecycle.antt.
-- Exchange.antt joins a client and a server; Resources.antt has the sockets and the number of the
-- allocations of a process, for the functions that make and close clients and servers.
-- A client's call encodes a request, writes it as a frame, reads a frame and decodes the reply; the
-- server's loop reads frames, decodes them, and either adds a chunk to the input of a running call
-- or starts a thread, which writes its replies on the same socket.
--
-- State is passed along explicitly. A writer is the bytes written, the capacity and the overflow
-- flag; a reader is the buffer, the position and the error flag; a socket is the segments that will
-- arrive, the numbers of bytes that each send takes, and the bytes sent. The functions that
-- allocate take `alloc`, which says for a size whether malloc returns memory. Handlers are
-- parameters: a function for unary ones, and a tree of emit, recv and return for the others.
--
-- Bounds: bytes are below 256 and integers have 64 bits with their wrap-around; doubles are their bit
-- patterns. decode_value and mpack_skip_value recurse on fuel, which callwire_codec_decode takes as
-- one more than the length of the payload: each nesting consumes a byte, so it is never used up.
-- The loops of framing.c have the number of bytes left as fuel.
--
-- Not modelled: frees and ownership, but for the allocations of clients and servers and the inputs of
-- stream calls; mutexes (the operations under one are single steps); the state of handlers; the
-- destructors of C++ values; c/src/tls.c, a stub; the copies of c/src in swift/Sources/CCallwire; and
-- the implementations in other languages.
pub mod Base
pub mod Value
pub mod Mpack
pub mod Codec
pub mod Framing
pub mod Errors
pub mod Client
pub mod Server
pub mod Convenience
pub mod Cobol
pub mod Resources
pub mod Cli
pub mod Cpp
pub mod Exchange
