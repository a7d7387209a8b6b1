-- ===== src/Tunnel/Channels.antt =====
-- The channel table: `close_channel`, the searches for a slot, and `reset_tunnel`.
use bi_tun.Base.{
  ℕ, zero, suc, ◌+◌, Bool, true, false, not, ◌&&◌, Option, none, some, List, [], ◌∷◌, length, set,
  get_elem?, replicate, ltb, ◌==◌, if◌then◌else◌, memcmp_eq,
}
use bi_tun.Replay.{anti_replay_init}
use bi_tun.Socks5.{socks5_free}
use bi_tun.Tunnel.Types.{Tunnel, disconnected, Channel, Address, Config}
use bi_tun.Tunnel.Host.{Host}
use bi_tun.Tunnel.Send.{Sys}

abbrev pub max_channels : ℕ
max_channels = 256

abbrev pub cleared_address : Address
cleared_address = record { ip = replicate 4 0; port = 0 }

-- The first index from `i` on whose channel passes the test.
unfoldable pub find_index : (Channel → Bool) → List Channel → ℕ → Option ℕ
find_index test [] i = none
find_index test (ch ∷ rest) i =
    let later = find_index test rest (i + 1) in if test ch then some i else later

unfoldable pub find_channel : List Channel → ℕ → Option ℕ
unfolding find_index
find_channel channels id = find_index (λ ch. ch.is_active && (ch.channel_id == id)) channels 0

unfoldable pub find_free : List Channel → Option ℕ
unfolding find_index
find_free channels = find_index (λ ch. not ch.is_active) channels 0

-- `remote_ip && strcmp(remote_ip, "0.0.0.0") != 0 && remote_port > 0`
unfoldable pub fixed_peer : Config → Bool
fixed_peer config =
    let any = 48 ∷ 46 ∷ 48 ∷ 46 ∷ 48 ∷ 46 ∷ 48 ∷ [] in
    elim config.remote_ip [
      | none ↦ false
      | some ip ↦ not ((length ip == 7) && memcmp_eq 7 ip any) && ltb 0 config.remote_port
    ]

module _ (E : Host) where
  open E use {poll_del, close}

  abbrev pub put_channel : Sys E → ℕ → Channel → Sys E
  put_channel s idx ch = record s { tun = record (s.tun) { channels = set s.tun.channels idx ch } }

  unfoldable pub close_channel : Sys E → ℕ → Sys E
  close_channel s channel_id = elim (find_channel s.tun.channels channel_id) [
    | none ↦ s
    | some idx ↦ elim (get_elem? s.tun.channels idx) [
      | none ↦ s
      | some ch ↦
          let closed = record ch {
            tcp_fd = none;
            socks5_ctx = socks5_free ch.socks5_ctx;
            is_active = false;
          } in
          let world : Host.World E = elim ch.tcp_fd [
            | none ↦ s.world
            | some fd ↦ close fd (poll_del fd s.world)
          ] in
          put_channel (record s { world = world }) idx closed
    ]
  ]

  -- The loop of `reset_tunnel` over the channels from `i` on, with `left` to go.
  unfoldable pub close_all : ℕ → ℕ → Sys E → Sys E
  close_all zero i s = s
  close_all (suc left) i s =
      let next : Sys E = elim (get_elem? s.tun.channels i) [
        | none ↦ s
        | some ch ↦ if ch.is_active then close_channel s ch.channel_id else s
      ] in
      close_all left (i + 1) next

  -- `reset_tunnel` up to its loop.
  unfoldable pub forget_session : Tunnel (Host.Kcp E) → Tunnel (Host.Kcp E)
  forget_session tun = record tun {
    state = disconnected;
    kcp = none;
    session_key = replicate 32 0;
    anti_replay_win = anti_replay_init;
    last_reset_timestamp = 0;
    last_reset_salt = 0;
  }

  unfoldable pub reset_tunnel : Sys E → Sys E
  unfolding forget_session
  reset_tunnel s =
      let closed = close_all max_channels 0 (record s { tun = forget_session s.tun }) in
      if fixed_peer s.tun.config
      then record closed { tun = record (closed.tun) { peer_addr_valid = true } }
      else record closed {
        tun = record (closed.tun) { peer_addr_valid = false; peer_addr = cleared_address };
      }
