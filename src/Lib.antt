-- ===== src/Lib.antt =====
-- MyWebSocket, an HTTP and websocket server on libuv's event loop.
--
-- The program's parts. An `HttpServer` (src/core/httpserver.cpp) keeps a vector of HTTP sessions;
-- each feeds what it reads to http-parser, answers through an `httpResp` and a router, or upgrades
-- to a websocket. A `WsServer` (src/core/WsServer.cpp) keeps the vector of websocket sessions; it
-- has the HTTP server call it when a session is upgraded, and takes over the handle and the receive
-- buffer. A `WsSession` (src/core/WebSocket.cpp) hands each read to its `websocket_parser`, whose
-- callback is the session's `handleWsFrame`; it sends texts and files, the latter through a
-- `FileReader` (src/core/FileReader.cpp). `WsUtil` (src/util/ssl.cpp) computes the accept key of the
-- handshake, `JwtUtil` (src/util/jwt.cpp) signs and verifies tokens.
--
-- Which file models what. `Parser` is `websocket_parser::parse`: a function for each state of its
-- switch, `store` and `unmask` for the copy of a chunk, `finish` for the case `complete`, `loop`
-- for the loop. `Parser/Feed` is a byte-wise parser and `Parser/Encode` the frame format of RFC
-- 6455; both are descriptions of what the code should do. `Parser/Streams` has the messages of a
-- client one after another, `WsServer/Stream` the reads that carry them. `WebSocket` is
-- `WsSession`: `recv_cb`, `handle_message`, `handle_ws_frame`, `inter_close`, `close`, `connect`,
-- `inter_send`, `send`, `send_pong`, `send_file`, `get_json_message`, and `write_cb` for the
-- callback of `uv_write`. `FileReader` has the handlers `handle_open`, `handle_read` and
-- `handle_close` and the methods of that class. `FileReader/Whole` has libuv serve its requests.
-- `Registry` is the removal from a session vector, `Registry/Bag` the bag of sessions that a vector
-- stands for. `HttpReq` is the request: its constructor and `query`. `Router` is `httpRouter`:
-- `parse_path_to_regex`, `add_route` and `dispatch`. `HttpResp` is `httpResp`: `send` with the
-- three kinds of content, `on_write_end`, and the callbacks of its reader; `HttpResp/Client` is a
-- client that reads a response, after RFC 9112. `AcceptKey` is `calculate_accept_key` and
-- `base64_encode`, `Jwt` is `sign`, `verify` and `transform`. `HttpSession` is
-- `HttpServer::Session` with what its server does for it: the constructor, the callbacks of
-- http-parser (`on_event`), `handle_request`, the keep-alive timer, `close_session`, `upgrade` and
-- `transfer_buffer_to_ws_session`. `HttpServer` is the server: its settings, `inter_on_connect`,
-- `handle_connect`, `set_ip`, and `server_step` for one event of a session. `RecvBuffer` is
-- `recv_alloc_cb` of both kinds of session. `WsServer` has `on_upgrade`, the constructor of
-- `WsSession`, and a `server_step` of its own. `Servers` puts the two servers together: `join` for
-- the constructor of `WsServer`, `hand_over` for the callback that `upgradeSession` runs,
-- `servers_step` for an event of the loop. `Examples` is main.cpp, a server with two routes, and
-- `Examples/Client` is client.cpp. `Prelude` holds what these share, `Tests` the theorems at
-- concrete inputs.
--
-- Conventions. A byte or a `char` is a number below 256, a text a list of numbers. An
-- `unordered_map` is an association list in the order of insertion, where the standard leaves the
-- order open; the handshake's headers are stated up to order. A `size_t` is a number; the shifts of
-- the payload length are taken modulo 2 ^ 64. What the code does to libuv is written to a log or
-- returned as a list of actions; what libuv answers is an argument. A session pointer is a number
-- that is not used again. The program's callbacks are functions from the session's state to the
-- calls that they make, of `close`, `send` and `sendFile`; `connect` is left to the server; a
-- route's handler is a name. Each `Reach` is the relation of the states that the event loop can
-- come to, by any events in any order. Locks are not modelled, since the program runs on one event
-- loop, and neither are the library's log lines.
--
-- Fuel. `Parser.loop` takes 2 n + 1 rounds for n bytes: a round reads a byte, or ends an empty
-- payload, and the next round reads one. `HttpReq.decode_loop` takes n + 1 rounds for n characters.
-- `HttpResp.decimal` has 20 digits, enough for a number below 10 ^ 20. `RecvBuffer.grow` has as many
-- rounds as the suggested size, since each makes the length larger. `FileReader.Whole.serve` is the
-- environment of the reader: a round for each buffer of 1024 bytes and one more.
--
-- Not modelled: destructors and the freeing of memory, but for the contexts of writes and the file
-- readers of responses. libuv, http-parser, leptjson, jwt-cpp, OpenSSL and std::regex are other
-- projects' code: the regular expressions' engine, the digest, the base64 encoder, the JSON values
-- and the signed tokens are parameters, http-parser's callbacks are events.
pub mod Prelude
pub mod Parser
pub mod FileReader
pub mod WebSocket
pub mod Registry
pub mod HttpReq
pub mod Router
pub mod HttpResp
pub mod AcceptKey
pub mod Jwt
pub mod HttpServer
pub mod HttpSession
pub mod RecvBuffer
pub mod WsServer
pub mod Servers
pub mod Examples
pub mod Tests
