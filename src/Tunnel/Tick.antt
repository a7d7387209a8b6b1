-- ===== src/Tunnel/Tick.antt =====
-- The timed part of a round of `tunnel_run`: the updates of KCP, the parity of a group that has
-- waited, keepalives, retransmissions, timeouts, and the end of backpressure.
use bi_tun.Base.{
  ℕ, zero, suc, ◌+◌, ◌-◌, ◌^◌, false, ◌&&◌, none, some, List, [], ◌∷◌, ltb, leb, if◌then◌else◌, u32,
  u64, be64, get_elem?,
}
use bi_tun.Tunnel.Types.{TunnelState, disconnected, punching, auth, connected}
use bi_tun.Tunnel.Host.{Host}
use bi_tun.Tunnel.Send.{Sys, kcp_output_cb, send_parity_packets, send_control_frame}
use bi_tun.Tunnel.Channels.{max_channels, put_channel, reset_tunnel}
use bi_tun.Tunnel.Handshake.{
  ping_magic, reply, ping_pong_packet, challenge_packet, send_auth_reset, is_connected,
}

-- `a - b` on `uint64_t`.
abbrev pub since : ℕ → ℕ → ℕ
since a b = u64 (a + (2 ^ 64 - b))

module _ (E : Host) where
  open E use {real_ms, ikcp_update, ikcp_waitsnd, poll_mod_in}

  unfoldable pub output_all : List (List ℕ) → Sys E → Sys E
  output_all [] s = s
  output_all (packet ∷ rest) s = output_all rest (kcp_output_cb E s packet)

  -- `ikcp_update`, its packets passed to the callback.
  unfoldable pub update_kcp : Sys E → ℕ → Sys E
  unfolding output_all
  update_kcp s now = elim s.tun.kcp [
    | none ↦ s
    | some kcp ↦
        let (packets, kcp') = ikcp_update kcp (u32 now) in
        output_all packets (record s { tun = record (s.tun) { kcp = some kcp' } })
  ]

  unfoldable pub flush_parity : Sys E → Sys E
  flush_parity s =
      let (now_real, world) = real_ms s.world in
      let asked = record s { world = world } in
      if is_connected s.tun.state
        && (ltb 0 s.tun.fec_enc.r && ltb 0 s.tun.fec_enc.data_packet_count)
      then (if leb 10 (since now_real s.tun.fec_enc.last_packet_time)
          then send_parity_packets E asked
          else asked)
      else s

  unfoldable pub send_ping : Sys E → Sys E
  send_ping s =
      let (time, world) = real_ms s.world in
      reply E (record s { world = world })
        (ping_pong_packet E s.tun.config.psk ping_magic (be64 time))

  abbrev pub set_ping_time : Sys E → ℕ → Sys E
  set_ping_time s time = record s { tun = record (s.tun) { last_ping_time = time } }

  -- Section 1 of the loop, by the state.
  unfoldable pub keepalive : TunnelState → Sys E → ℕ → Sys E
  unfolding send_ping
  keepalive connected s now =
      let sent = send_control_frame E s 0 0x05 [] in
      if ltb 30000 (since now s.tun.last_recv_time)
      then reset_tunnel E s
      else if ltb 10000 (since now s.tun.last_keepalive_time)
      then record sent { tun = record (sent.tun) { last_keepalive_time = now } }
      else s
  keepalive disconnected s now =
      if s.tun.peer_addr_valid
      then record s { tun = record (s.tun) { state = punching; last_ping_time = 0 } }
      else s
  keepalive punching s now =
      if ltb 1000 (since now s.tun.last_ping_time)
      then set_ping_time (send_auth_reset E (send_ping s)) now
      else s
  keepalive auth s now =
      if ltb 5000 (since now s.tun.auth_start_time)
      then reset_tunnel E s
      else if ltb 500 (since now s.tun.last_ping_time)
      then set_ping_time (reply E s (challenge_packet E s.tun.config.psk s.tun.r_local)) now
      else s

  -- The loop of section 2 from channel `i` on.
  unfoldable pub resume_loop : ℕ → ℕ → Sys E → Sys E
  resume_loop zero i s = s
  resume_loop (suc left) i s =
      let next : Sys E = elim (get_elem? s.tun.channels i) [
        | none ↦ s
        | some ch ↦ elim ch.tcp_fd [
          | none ↦ s
          | some fd ↦
              if ch.is_active && ch.read_suspended
              then put_channel E (record s { world = poll_mod_in fd s.world }) i
                  (record ch { read_suspended = false })
              else s
        ]
      ] in
      resume_loop left (i + 1) next

  unfoldable pub resume_channels : Sys E → Sys E
  unfolding resume_loop
  resume_channels s = elim s.tun.kcp [
    | none ↦ s
    | some kcp ↦ if ltb (ikcp_waitsnd kcp) 16 then resume_loop max_channels 0 s else s
  ]

  -- The round up to the poll.
  unfoldable pub tick : Sys E → ℕ → Sys E
  unfolding update_kcp flush_parity keepalive resume_channels
  tick s now =
      let updated = update_kcp s now in
      let flushed : Sys E = elim updated.tun.kcp [
        | none ↦ updated
        | some kcp ↦ flush_parity updated
      ] in
      resume_channels (keepalive flushed.tun.state flushed now)
