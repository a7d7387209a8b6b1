-- ===== src/Lib.antt =====
-- BiTun: a tunnel between two hosts over UDP. A local SOCKS5 client opens a channel; its bytes go
-- as frames over KCP; KCP's packets are grouped, protected by parity blocks and encrypted; and two
-- ends agree on a session key by a handshake under a key that they share in advance.
--
-- The parts, and the files that model them:
--   Base      shared helpers: lists by native index, bit operations, words, memory, byte order.
--   Replay    the anti-replay window of src/encrypt.c (`anti_replay_init`, `anti_replay_check`,
--             `anti_replay_update`); Replay/History relates it to the numbers that were accepted.
--   Session   `derive_session_key` of src/encrypt.c and the HKDF of src/linux/bitun_osal.c.
--   Gf        the field of 256 elements of src/fec.c and src/fec.h, with the tables of `gf_init`.
--   Fec       `fec_encode`, `gf_invert_matrix` and `fec_decode` of src/fec.c.
--   Socks5    the stream parser `socks5_handle_input` of src/socks5.c, a byte at a time.
--   Tunnel    src/tunnel.c on the state of src/tunnel.h (Tunnel/Types): sending with parity
--             (Tunnel/Send), receiving with parity (Tunnel/FecIn), the channel table and
--             `reset_tunnel` (Tunnel/Channels), the handshake (Tunnel/Handshake), and the sections
--             of `tunnel_run`: timers and backpressure (Tunnel/Tick), packets from the network
--             (Tunnel/Receive), local connections (Tunnel/Local), frames (Tunnel/Frames). The whole
--             loop is Tunnel/Run, `tunnel_init` and `tunnel_destroy` are Tunnel/Setup.
--             Tunnel/Live follows KCP and the state through every handler of the loop.
--   Osal      the parts of src/linux/bitun_osal.c that keep a state of their own: the queue between
--             threads (Osal/Queue) and the resolver thread (Osal/Dns). What a thread does under a
--             lock is one function; Osal/Dns/Steps is the relation of all interleavings of the
--             worker with the tunnel's loop, up to the stop of the thread, which `main` calls when
--             `tunnel_run` has returned.
--   Cli       the command line and `main` of src/linux/main.c.
--
-- How the code corresponds. A C array is a list of bytes, an integer type is a native number with
-- its wrap-around written out, a pointer that may be null and a descriptor that may be -1 are
-- options. A function that changes its argument returns the changed record. The tunnel's handlers
-- take and return `Sys`, the tunnel and the world around it. What is not in this repository, or is a
-- copy of another project's, is a field of the record `Host` (Tunnel/Host): the sockets, the clock,
-- the random source, HMAC-SHA256, ChaCha20-Poly1305, `malloc`, and KCP (src/ikcp.c). The theorems
-- assume nothing of them but what their own comments say. Messages printed are left out.
--
-- Bounds and fuel. The loop of the HKDF runs on as many rounds as there are bytes to make, which
-- is enough since each round makes one at least. The loop that takes messages from KCP runs on fuel,
-- since the number of messages is KCP's, and so do the rounds of `tunnel_run` and the loops that
-- empty the queue of results, since the worker may add to it meanwhile; for the queue alone, fuel
-- above the number of its items is enough. All other loops are over lists or counts that the code
-- fixes.
--
-- Not modelled: the wrappers of single calls of the operating system and of OpenSSL, KCP itself, the
-- port to the ESP32, which is stubs, and what is printed. The program's one mutex has no content. A
-- payload that the code would copy past the end of a block of 1408 bytes is cut there. Of the state,
-- the local address, which is only passed to `bind`, and the working buffer of the decoder are left
-- out.
pub mod Base
pub mod Replay
pub mod Session
pub mod Socks5
pub mod Gf
pub mod Fec
pub mod Tunnel
pub mod Osal
pub mod Cli
