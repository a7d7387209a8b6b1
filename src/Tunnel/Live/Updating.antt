-- ===== src/Tunnel/Live/Updating.antt =====
-- The updates of KCP and the parity that has waited leave alone what sending leaves alone.
use bi_tun.Base.{ℕ, ◌&&◌, none, some, List, [], ◌∷◌, ltb, leb, u32}
use bi_tun.Tunnel.Host.{Host}
use bi_tun.Tunnel.Send.{Sys, kcp_output_cb}
use bi_tun.Tunnel.Handshake.{is_connected}
use bi_tun.Tunnel.Tick.{since, output_all, update_kcp, flush_parity}
use bi_tun.Tunnel.Live.{Same, Core, other_kcp-Same, either, whether, whether_is}
use bi_tun.Tunnel.Live.Sending.{send_parity-Same, output-Same}

module _ (E : Host) (c : Core E) where
  output_all-Same :
      (packets : List (List ℕ)) (s : Sys E) → Same E c s → Same E c (output_all E packets s)
  unfolding output_all
  output_all-Same [] s h = h
  output_all-Same (packet ∷ rest) s h =
      output_all-Same rest (kcp_output_cb E s packet) (output-Same E c s packet h)

  update-Same : (s : Sys E) (now : ℕ) → Same E c s → Same E c (update_kcp E s now)
  unfolding update_kcp
  update-Same s now h = whether_is (Same E c) s.tun.kcp h (λ kcp e.
      let (packets, kcp') = Host.ikcp_update E kcp (u32 now) in
      output_all-Same packets (record s { tun = record (s.tun) { kcp = some kcp' } })
        (other_kcp-Same E c s kcp kcp' e h))

  flush-Same : (s : Sys E) → Same E c s → Same E c (flush_parity E s)
  unfolding Same flush_parity
  flush-Same s h =
      let (now_real, world) = Host.real_ms E s.world in
      let asked = record s { world = world } in
      either (Same E c)
        (is_connected s.tun.state
          && (ltb 0 s.tun.fec_enc.r && ltb 0 s.tun.fec_enc.data_packet_count))
        (either (Same E c) (leb 10 (since now_real s.tun.fec_enc.last_packet_time))
          (send_parity-Same E c asked h) h)
        h

  -- The part of a round that comes before the keepalives.
  abbrev pub before_keepalive : Sys E → ℕ → Sys E
  before_keepalive s now =
      let updated = update_kcp E s now in
      elim updated.tun.kcp [ none ↦ updated | some kcp ↦ flush_parity E updated ]

  pub before_keepalive-Same : (s : Sys E) (now : ℕ) → Same E c s → Same E c (before_keepalive s now)
  before_keepalive-Same s now h =
      let updated = update_kcp E s now in
      whether (Same E c) updated.tun.kcp (update-Same s now h)
        (λ kcp. flush-Same updated (update-Same s now h))
