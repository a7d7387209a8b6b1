-- ===== src/Tunnel/Handshake.antt =====
-- The handshake of src/tunnel.c: the packets, and what `tunnel_run` does with each. A handler
-- takes the packet `buf`, its sender and the time `now` of the round.
use bi_tun.Base.{
  ℕ, ◌-◌, Bool, true, false, ◌&&◌, ◌||◌, none, some, List, [], ◌∷◌, ◌++◌, length, take, zero, suc,
  get_or, drop, ltb, ◌==◌, ◌!=◌, if◌then◌else◌, slice, be64, from_be, memcmp_gt, bit_or, bit_xor,
}
use bi_tun.Session.{derive_session_key}
use bi_tun.Tunnel.Types.{Tunnel, TunnelState, disconnected, punching, auth, connected, Address}
use bi_tun.Tunnel.Host.{Host}
use bi_tun.Tunnel.Send.{Sys}
use bi_tun.Tunnel.Channels.{reset_tunnel}

abbrev pub ping_magic : List ℕ
ping_magic = 80 ∷ 73 ∷ 78 ∷ 71 ∷ []

abbrev pub pong_magic : List ℕ
pong_magic = 80 ∷ 79 ∷ 78 ∷ 71 ∷ []

abbrev pub chal_magic : List ℕ
chal_magic = 67 ∷ 72 ∷ 65 ∷ 76 ∷ []

abbrev pub resp_magic : List ℕ
resp_magic = 82 ∷ 69 ∷ 83 ∷ 80 ∷ []

-- The four bytes of "RESET" that are sent and compared.
abbrev pub reset_magic : List ℕ
reset_magic = 82 ∷ 69 ∷ 83 ∷ 69 ∷ []

-- "BiTun Reset Request"
abbrev pub reset_text : List ℕ
reset_text =
    66 ∷ 105 ∷ 84 ∷ 117 ∷ 110 ∷ 32 ∷ 82 ∷ 101 ∷ 115 ∷ 101 ∷ 116 ∷ 32 ∷ 82 ∷ 101 ∷ 113 ∷ 117 ∷ 101
    ∷ 115 ∷ 116 ∷ []

-- "BiTun Handshake Challenge"
abbrev pub challenge_text : List ℕ
challenge_text =
    66 ∷ 105 ∷ 84 ∷ 117 ∷ 110 ∷ 32 ∷ 72 ∷ 97 ∷ 110 ∷ 100 ∷ 115 ∷ 104 ∷ 97 ∷ 107 ∷ 101 ∷ 32 ∷ 67
    ∷ 104 ∷ 97 ∷ 108 ∷ 108 ∷ 101 ∷ 110 ∷ 103 ∷ 101 ∷ []

-- The loop of `const_memcmp` on `len` more bytes.
unfoldable pub diff_loop : List ℕ → List ℕ → ℕ → ℕ → ℕ
diff_loop a b zero diff = diff
diff_loop a b (suc len) diff =
    diff_loop (drop 1 a) (drop 1 b) len (bit_or diff (bit_xor (get_or a 0 0) (get_or b 0 0)))

-- True for a difference.
unfoldable pub const_memcmp : List ℕ → List ℕ → ℕ → Bool
unfolding diff_loop
const_memcmp a b len = diff_loop a b len 0 != 0

-- |local - remote|, unsigned.
abbrev pub skew : ℕ → ℕ → ℕ
skew local remote = if ltb remote local then local - remote else remote - local

abbrev pub early : TunnelState → Bool
early disconnected = true
early punching = true
early auth = false
early connected = false

abbrev pub is_punching : TunnelState → Bool
is_punching punching = true
is_punching _ = false

abbrev pub is_connected : TunnelState → Bool
is_connected connected = true
is_connected _ = false

abbrev pub is_auth : TunnelState → Bool
is_auth auth = true
is_auth _ = false

module _ (E : Host) where
  open E use {
    real_ms, random_bytes, random_u32, padding, hmac_sha256, sendto, ikcp_create, ikcp_wndsize,
    ikcp_setmtu, ikcp_nodelay,
  }

  abbrev pub reply : Sys E → List ℕ → Sys E
  reply s packet = record s { world = sendto packet s.tun.peer_addr s.world }

  abbrev pub ping_pong_packet : List ℕ → List ℕ → List ℕ → List ℕ
  ping_pong_packet psk magic timestamp =
      magic ++ (take 4 padding ++ (timestamp ++ hmac_sha256 psk (magic ++ timestamp)))

  abbrev pub challenge_packet : List ℕ → List ℕ → List ℕ
  challenge_packet psk salt = chal_magic ++ (salt ++ hmac_sha256 psk (chal_magic ++ salt))

  abbrev pub response_of : List ℕ → List ℕ → List ℕ → List ℕ
  response_of psk r_local r_remote = hmac_sha256 psk (r_local ++ (r_remote ++ challenge_text))

  abbrev pub reset_signature : List ℕ → List ℕ → List ℕ → List ℕ
  reset_signature psk timestamp salt =
      hmac_sha256 psk (reset_magic ++ (timestamp ++ (salt ++ reset_text)))

  abbrev pub reset_packet : List ℕ → List ℕ → List ℕ → List ℕ
  reset_packet psk timestamp salt =
      reset_magic ++ (take 4 padding ++ (timestamp ++ (salt ++ reset_signature psk timestamp salt)))

  unfoldable pub send_auth_reset : Sys E → Sys E
  send_auth_reset s =
      let (time, world) = real_ms s.world in
      let (salt, world') = random_u32 world in
      let packet = reset_packet s.tun.config.psk (be64 time) (be64 salt) in
      if s.tun.peer_addr_valid then record s { world = sendto packet s.tun.peer_addr world' } else s

  -- The transition to STATE_AUTH, with a fresh local salt.
  unfoldable pub begin_auth : Sys E → ℕ → Sys E
  begin_auth s now =
      let (salt, world) = random_bytes 32 s.world in
      record {
        tun = record (s.tun) {
          state = auth;
          r_local = salt;
          auth_start_time = now;
          last_ping_time = 0;
        };
        world = world;
      }

  abbrev pub learn : Sys E → Address → Sys E
  learn s from = record s { tun = record (s.tun) { peer_addr = from; peer_addr_valid = true } }

  unfoldable pub on_ping : Sys E → List ℕ → Address → ℕ → Sys E
  unfolding begin_auth
  on_ping s buf from now =
      let timestamp = slice buf 8 8 in
      let sig = hmac_sha256 s.tun.config.psk (slice buf 0 4 ++ timestamp) in
      let known = if s.tun.peer_addr_valid then s else learn s from in
      let answered = reply known (ping_pong_packet s.tun.config.psk pong_magic timestamp) in
      if ltb (length buf) 48 || const_memcmp sig (slice buf 16 32) 32
      then s
      else if early answered.tun.state
      then begin_auth answered now
      else answered

  unfoldable pub on_pong : Sys E → List ℕ → ℕ → Sys E
  unfolding begin_auth
  on_pong s buf now =
      let sig = hmac_sha256 s.tun.config.psk (slice buf 0 4 ++ slice buf 8 8) in
      if ltb (length buf) 48 || const_memcmp sig (slice buf 16 32) 32
      then s
      else if is_punching s.tun.state
      then begin_auth s now
      else s

  -- The session key, the role and a new KCP, as the response and the re-keying set them up.
  unfoldable pub start_session : Tunnel (Host.Kcp E) → Tunnel (Host.Kcp E)
  start_session tun =
      let kcp =
        ikcp_nodelay (ikcp_setmtu (ikcp_wndsize (ikcp_create 0x11223344) 32 32) 1400) 1 20 2 1 in
      let derived = derive_session_key hmac_sha256 tun.config.psk tun.r_local tun.r_remote in
      let key : List ℕ = elim derived [ none ↦ tun.session_key | some k ↦ k ] in
      record tun {
        session_key = key;
        is_odd_id_generator = memcmp_gt 32 tun.r_local tun.r_remote;
        kcp = some kcp;
      }

  unfoldable pub on_chal : Sys E → List ℕ → Sys E
  unfolding start_session
  on_chal s buf =
      let salt = slice buf 4 32 in
      let sig = hmac_sha256 s.tun.config.psk (slice buf 0 4 ++ salt) in
      let told = record (s.tun) { r_remote = salt } in
      let tun = if is_connected told.state then start_session told else told in
      let packet = resp_magic ++ response_of tun.config.psk tun.r_local tun.r_remote in
      if ltb (length buf) 68 || const_memcmp sig (slice buf 36 32) 32
      then s
      else reply (record s { tun = tun }) packet

  unfoldable pub on_resp : Sys E → List ℕ → ℕ → Sys E
  unfolding start_session
  on_resp s buf now =
      let expected = response_of s.tun.config.psk s.tun.r_remote s.tun.r_local in
      if ltb (length buf) 36 || const_memcmp expected (slice buf 4 32) 32
      then s
      else if is_auth s.tun.state
      then record s {
        tun = record (start_session s.tun) {
          state = connected;
          last_recv_time = now;
          last_keepalive_time = now;
        };
      }
      else s

  -- `reset_tunnel`, and the way back to STATE_AUTH with the sender as the peer.
  unfoldable pub accept_reset : Sys E → Address → ℕ → ℕ → ℕ → Sys E
  unfolding reset_tunnel begin_auth
  accept_reset s from now time salt =
      let noted = record s {
        tun = record (s.tun) { last_reset_timestamp = time; last_reset_salt = salt };
      } in
      begin_auth (learn (reset_tunnel E noted) from) now

  unfoldable pub on_reset : Sys E → List ℕ → Address → ℕ → Sys E
  unfolding accept_reset
  on_reset s buf from now =
      let time = from_be (slice buf 8 8) in
      let salt = from_be (slice buf 16 8) in
      let (local, world) = real_ms s.world in
      let asked = record s { world = world } in
      let sig = reset_signature s.tun.config.psk (slice buf 8 8) (slice buf 16 8) in
      if ltb (length buf) 56
      then s
      else if ltb 5000 (skew local time) || const_memcmp sig (slice buf 24 32) 32
      then asked
      else if ltb time s.tun.last_reset_timestamp
          || ((time == s.tun.last_reset_timestamp) && (salt == s.tun.last_reset_salt))
      then asked
      else accept_reset asked from now time salt
