-- ===== src/Tunnel/Live/Incoming.antt =====
-- A packet of a group, and what is recovered of it, leave the state alone, and a KCP where there was
-- one.
use bi_tun.Base.{
  ℕ, zero, suc, ◌+◌, ◌-◌, ◌^◌, Bool, true, false, not, ◌&&◌, ◌||◌, none, List, [], ◌∷◌, get_or,
  slice, from_be, u64, u32, ltb, leb, ◌==◌, if◌then◌else◌,
}
use bi_tun.Fec.{fec_decode}
use bi_tun.Tunnel.Types.{FecHeader, FecGroup}
use bi_tun.Tunnel.Host.{Host}
use bi_tun.Tunnel.Send.{Sys, fec_block_size, fec_max_n, fec_max_r}
use bi_tun.Tunnel.FecIn.{
  input, put_group, deliver_loop, try_decode, report_loss, receive_in_group, open_slot,
  handle_incoming_fec_packet, loss_rate, store_block, missing_loop, find_group, best_slot,
  zero_group,
}
use bi_tun.Tunnel.Live.{Live, other_kcp-Live, either, whether, whether_is}
use bi_tun.Tunnel.Live.Sending.{send_control_frame-Live}

module _ (E : Host) where
  input-Live : (s : Sys E) (payload : List ℕ) → Live E s → Live E (input E s payload)
  unfolding Live
  input-Live s payload h =
      whether_is (Live E) s.tun.kcp h
        (λ kcp e. other_kcp-Live E s kcp (Host.ikcp_input E kcp payload) e h)

  deliver_loop-Live :
      (has_index : List Bool) (recovered : List (List ℕ)) (left i : ℕ) (s : Sys E)
      → Live E s
      → Live E (deliver_loop E has_index recovered left i s)
  unfolding deliver_loop
  deliver_loop-Live has_index recovered zero i s h = h
  deliver_loop-Live has_index recovered (suc left) i s h =
      let block = get_or recovered i [] in
      let orig_len = from_be (slice block 0 2) in
      let next : Sys E =
        if get_or has_index i false
        then s
        else if ltb 0 orig_len && leb orig_len 1400
        then input E s (slice block 2 orig_len)
        else s in
      deliver_loop-Live has_index recovered left (i + 1) next (
        either (Live E) (get_or has_index i false) h (
          either (Live E) (ltb 0 orig_len && leb orig_len 1400)
            (input-Live s (slice block 2 orig_len) h) h))

  try_decode-Live :
      (s : Sys E) (slot : ℕ) (g : FecGroup) (m r : ℕ)
      → Live E s
      → Live E (try_decode E s slot g m r)
  unfolding Live try_decode
  try_decode-Live s slot g m r h =
      let done = put_group E s slot (record g { decoded = true }) in
      either (Live E) (not g.decoded && leb m g.received_count)
        (either (Live E) (ltb 0 (missing_loop g.has_index m 0))
          (whether (Live E)
            (fec_decode g.received_blocks g.received_indices g.received_count m fec_block_size) h
            (λ recovered. deliver_loop-Live g.has_index recovered m 0 done h))
          h)
        h

  report_loss-Live : (s : Sys E) → Live E s → Live E (report_loss E s)
  unfolding Live report_loss
  report_loss-Live s h =
      let (now_ms, world) = Host.real_ms E s.world in
      let asked = record s { world = world } in
      let rate = loss_rate s.tun.stats_expected_groups s.tun.stats_received_packets in
      let since = u64 (now_ms + (2 ^ 64 - s.tun.last_stats_report_time)) in
      either (Live E) (leb 100 s.tun.stats_group_packet_count || leb 1000 since)
        (either (Live E) (ltb 0 s.tun.stats_expected_groups)
          (send_control_frame-Live E asked 0 0x07 (rate ∷ []) h) h)
        h

  receive_in_group-Live :
      (s : Sys E) (slot : ℕ) (found : FecGroup) (hdr : FecHeader) (payload : List ℕ) (now : ℕ)
      → Live E s
      → Live E (receive_in_group E s slot found hdr payload now)
  unfolding Live receive_in_group
  receive_in_group-Live s slot found hdr payload now h =
      let g = record found { last_active_time = now } in
      let stored = store_block g hdr.index hdr.n payload in
      let counted = record s {
        tun = record (s.tun) {
          stats_received_packets = u32 (s.tun.stats_received_packets + 1);
          stats_group_packet_count = u32 (s.tun.stats_group_packet_count + 1);
        };
      } in
      let kept = put_group E counted slot stored in
      let passed : Sys E = if ltb hdr.index hdr.n then input E kept payload else kept in
      let here : Live E passed =
        either (Live E) (ltb hdr.index hdr.n) (input-Live kept payload h) h in
      either (Live E) (leb (hdr.n + hdr.r) hdr.index || get_or g.has_index hdr.index false) h (
        report_loss-Live (try_decode E passed slot stored hdr.n hdr.r)
          (try_decode-Live passed slot stored hdr.n hdr.r here))

  pub incoming-Live :
      (s : Sys E) (hdr : FecHeader) (payload : List ℕ) (now : ℕ)
      → Live E s
      → Live E (handle_incoming_fec_packet E s hdr payload now)
  unfolding Live handle_incoming_fec_packet open_slot
  incoming-Live s hdr payload now h =
      let opened = open_slot E s hdr in
      either (Live E) (ltb fec_max_n hdr.n || ltb fec_max_r hdr.r || hdr.n == 0) h (
        either (Live E) (hdr.r == 0) (input-Live s payload h) (
          whether (Live E) (find_group s.tun.groups hdr.group_id 0)
            (whether (Live E) (best_slot s.tun.groups 0 (2 ^ 64 - 1) none) h
              (λ slot. receive_in_group-Live opened.0 slot opened.1 hdr payload now h))
            (λ slot.
              receive_in_group-Live s slot (get_or s.tun.groups slot zero_group) hdr payload now
                h)))
