-- ===== src/Tunnel/Live/Sending.antt =====
-- Sending leaves the channels, the state, and whether there is a KCP alone.
use bi_tun.Base.{ℕ, zero, suc, ◌+◌, List, [], length, get_or, leb, ◌==◌, ◌||◌, arith, if◌then◌else◌}
use bi_tun.Fec.{fec_encode}
use bi_tun.Tunnel.Types.{FecHeader}
use bi_tun.Tunnel.Host.{Host}
use bi_tun.Tunnel.Send.{
  Sys, set_enc, fec_block_size, encrypt_and_send_udp, send_parity_loop, send_parity_packets,
  open_group, keep_packet, output_with_parity, kcp_output_cb, send_control_frame, control_frame,
}
use bi_tun.Tunnel.Live.{
  Live, Same, Same-refl, Same-Live, Core, core_with, other_kcp-Same, either, whether, whether_is,
}

module _ (E : Host) (c : Core E) where
  pub send_control_frame-Same :
      (s : Sys E) (id cmd : ℕ) (payload : List ℕ)
      → Same E c s
      → Same E c (send_control_frame E s id cmd payload)
  unfolding Same send_control_frame
  send_control_frame-Same s id cmd payload h = whether_is (Same E c) s.tun.kcp h (λ kcp e.
      whether (Same E c) (Host.malloc E (8 + length payload)) h (λ frame.
        other_kcp-Same E c s kcp (Host.ikcp_send E kcp (control_frame id cmd payload)) e h))

  encrypt-Same :
      (s : Sys E) (hdr : FecHeader) (payload : List ℕ)
      → Same E c s
      → Same E c (encrypt_and_send_udp E s hdr payload).1
  unfolding Same encrypt_and_send_udp
  encrypt-Same s hdr payload h = ground (arith, h)

  parity_loop-Same :
      (left i m r : ℕ) (s : Sys E) → Same E c s → Same E c (send_parity_loop E left i m r s)
  unfolding send_parity_loop
  parity_loop-Same zero i m r s h = h
  parity_loop-Same (suc left) i m r s h =
      let enc = s.tun.fec_enc in
      let hdr : FecHeader = record {
        group_id = enc.current_group_id;
        index = m + i;
        n = m;
        r = r;
      } in
      parity_loop-Same left (i + 1) m r
        (encrypt_and_send_udp E s hdr (get_or enc.parity_blocks i [])).1
        (encrypt-Same s hdr (get_or enc.parity_blocks i []) h)

  pub send_parity-Same : (s : Sys E) → Same E c s → Same E c (send_parity_packets E s)
  unfolding Same send_parity_packets
  send_parity-Same s h =
      let enc = s.tun.fec_enc in
      let m = enc.data_packet_count in
      let parity = fec_encode enc.data_blocks m enc.r fec_block_size enc.parity_blocks in
      either (Same E c) (leb enc.r 0 || m == 0) h
        (parity_loop-Same enc.r 0 m enc.r (set_enc E s (record enc { parity_blocks = parity })) h)

  with_parity-Same : (s : Sys E) (buf : List ℕ) → Same E c s → Same E c (output_with_parity E s buf)
  unfolding Same output_with_parity open_group keep_packet
  with_parity-Same s buf h =
      let idx = s.tun.fec_enc.data_packet_count in
      let start : Sys E = if idx == 0 then open_group E s else s in
      let begun : Same E c start = either (Same E c) (idx == 0) h h in
      let kept = keep_packet E start idx buf in
      let enc = kept.tun.fec_enc in
      let hdr : FecHeader = record {
        group_id = enc.current_group_id;
        index = idx;
        n = enc.n;
        r = enc.r;
      } in
      let sent = (encrypt_and_send_udp E kept hdr buf).1 in
      let counted = set_enc E sent (record (sent.tun.fec_enc) {
        data_packet_count = sent.tun.fec_enc.data_packet_count + 1;
      }) in
      let whole : Same E c counted = encrypt-Same kept hdr buf begun in
      either (Same E c) (leb counted.tun.fec_enc.n counted.tun.fec_enc.data_packet_count)
        (send_parity-Same counted whole) whole

  pub output-Same : (s : Sys E) (buf : List ℕ) → Same E c s → Same E c (kcp_output_cb E s buf)
  unfolding kcp_output_cb
  output-Same s buf h =
      let bare : FecHeader = record { group_id = 0; index = 0; n = 1; r = 0 } in
      either (Same E c) s.tun.peer_addr_valid
        (either (Same E c) (s.tun.fec_r == 0) (encrypt-Same s bare buf h)
          (with_parity-Same s buf h))
        h

pub send_control_frame-Live :
    (E : Host) (s : Sys E) (id cmd : ℕ) (payload : List ℕ)
    → Live E s
    → Live E (send_control_frame E s id cmd payload)
send_control_frame-Live E s id cmd payload h =
    Same-Live E s (send_control_frame E s id cmd payload) h
      (send_control_frame-Same E (core_with E s s.tun.kcp) s id cmd payload (Same-refl E s))
