-- ===== src/Tunnel/FecIn.antt =====
-- `handle_incoming_fec_packet`: the groups, their blocks, the recovery and the loss report.
use bi_tun.Base.{
  ℕ, zero, suc, ◌+◌, ◌-◌, ◌*◌, ◌/◌, ◌^◌, Bool, true, false, not, ◌&&◌, ◌||◌, Option, none, some,
  List, [], ◌∷◌, ◌++◌, length, set, get_or, replicate, ltb, leb, ◌==◌, if◌then◌else◌, u8, u16, u32,
  u64, be16, from_be, slice, padded,
}
use bi_tun.Fec.{fec_decode}
use bi_tun.Tunnel.Types.{FecHeader, FecGroup}
use bi_tun.Tunnel.Host.{Host}
use bi_tun.Tunnel.Send.{Sys, fec_max_n, fec_max_r, fec_block_size, send_control_frame}

abbrev pub fec_max_groups : ℕ
fec_max_groups = 3

-- A group after `memset` to 0.
abbrev pub zero_group : FecGroup
zero_group = record {
  group_id = 0;
  n = 0;
  r = 0;
  received_count = 0;
  last_active_time = 0;
  received_indices = replicate 24 0;
  has_index = replicate 24 false;
  decoded = false;
  received_blocks = replicate 24 (replicate 1408 0);
}

-- The slot of the group `id`, from slot `i` on.
unfoldable pub find_group : List FecGroup → ℕ → ℕ → Option ℕ
find_group [] id i = none
find_group (g ∷ rest) id i =
    let later = find_group rest id (i + 1) in
    if ltb 0 g.received_count && (g.group_id == id) then some i else later

-- The slot for a new group: the first empty one, or else the one that was idle for longest.
unfoldable pub best_slot : List FecGroup → ℕ → ℕ → Option ℕ → Option ℕ
best_slot [] i oldest_time best = best
best_slot (g ∷ rest) i oldest_time best =
    let newer = best_slot rest (i + 1) oldest_time best in
    let older = best_slot rest (i + 1) g.last_active_time (some i) in
    if g.received_count == 0
    then some i
    else if ltb g.last_active_time oldest_time
    then older
    else newer

-- The block of a packet, as it lies in the group. The code copies a data payload of more than 1406
-- bytes past the end of the block; what that overwrites is not modelled, and the block is cut there.
unfoldable pub received_block : ℕ → ℕ → List ℕ → List ℕ
received_block index n payload =
    if ltb index n
    then padded (be16 (u16 (length payload)) ++ payload) fec_block_size
    else padded payload fec_block_size

unfoldable pub store_block : FecGroup → ℕ → ℕ → List ℕ → FecGroup
unfolding received_block
store_block g index n payload = record g {
  has_index = set g.has_index index true;
  received_indices = set g.received_indices g.received_count index;
  received_blocks = set g.received_blocks g.received_count (received_block index n payload);
  received_count = g.received_count + 1;
}

-- The data blocks from `i` on that have not come, `left` to look at.
unfoldable pub missing_loop : List Bool → ℕ → ℕ → ℕ
missing_loop has_index zero i = 0
missing_loop has_index (suc left) i =
    let rest = missing_loop has_index left (i + 1) in
    if get_or has_index i false then rest else rest + 1

unfoldable pub loss_rate : ℕ → ℕ → ℕ
loss_rate expected received =
    let rate : ℕ =
      if ltb received expected then u8 ((expected - received) * 100 / expected) else 0 in
    if ltb 100 rate then 100 else rate

module _ (E : Host) where
  open E use {real_ms, ikcp_input}

  abbrev pub input : Sys E → List ℕ → Sys E
  input s payload = elim s.tun.kcp [
    | none ↦ s
    | some kcp ↦ record s { tun = record (s.tun) { kcp = some (ikcp_input kcp payload) } }
  ]

  abbrev pub put_group : Sys E → ℕ → FecGroup → Sys E
  put_group s slot g = record s { tun = record (s.tun) { groups = set s.tun.groups slot g } }

  -- The recovered blocks from `i` on that were missing, passed to KCP; `left` to look at.
  unfoldable pub deliver_loop : List Bool → List (List ℕ) → ℕ → ℕ → Sys E → Sys E
  deliver_loop has_index recovered zero i s = s
  deliver_loop has_index recovered (suc left) i s =
      let block = get_or recovered i [] in
      let orig_len = from_be (slice block 0 2) in
      deliver_loop has_index recovered left (i + 1) (
        if get_or has_index i false
        then s
        else if ltb 0 orig_len && leb orig_len 1400
        then input s (slice block 2 orig_len)
        else s)

  -- The recovery, with `n` and `r` of the packet's header.
  unfoldable pub try_decode : Sys E → ℕ → FecGroup → ℕ → ℕ → Sys E
  unfolding deliver_loop missing_loop
  try_decode s slot g n r =
      let done = put_group s slot (record g { decoded = true }) in
      let answer =
        fec_decode g.received_blocks g.received_indices g.received_count n fec_block_size in
      if not g.decoded && leb n g.received_count
      then (if ltb 0 (missing_loop g.has_index n 0)
          then elim answer [
            | none ↦ s
            | some recovered ↦ deliver_loop g.has_index recovered n 0 done
          ]
          else done)
      else s

  unfoldable pub report_loss : Sys E → Sys E
  unfolding loss_rate
  report_loss s =
      let (now_ms, world) = real_ms s.world in
      let asked = record s { world = world } in
      let rate = loss_rate s.tun.stats_expected_groups s.tun.stats_received_packets in
      let sent = send_control_frame E asked 0 0x07 (rate ∷ []) in
      let since = u64 (now_ms + (2 ^ 64 - s.tun.last_stats_report_time)) in
      if leb 100 s.tun.stats_group_packet_count || leb 1000 since
      then (if ltb 0 s.tun.stats_expected_groups
          then record sent {
            tun = record (sent.tun) {
              stats_expected_groups = 0;
              stats_received_packets = 0;
              stats_group_packet_count = 0;
              last_stats_report_time = now_ms;
            };
          }
          else record asked { tun = record (asked.tun) { last_stats_report_time = now_ms } })
      else asked

  -- The packet in its group, in slot `slot`.
  unfoldable pub receive_in_group : Sys E → ℕ → FecGroup → FecHeader → List ℕ → ℕ → Sys E
  unfolding store_block try_decode report_loss
  receive_in_group s slot found hdr payload now =
      let g = record found { last_active_time = now } in
      let stored = store_block g hdr.index hdr.n payload in
      let counted = record s {
        tun = record (s.tun) {
          stats_received_packets = u32 (s.tun.stats_received_packets + 1);
          stats_group_packet_count = u32 (s.tun.stats_group_packet_count + 1);
        };
      } in
      let kept = put_group counted slot stored in
      let passed = if ltb hdr.index hdr.n then input kept payload else kept in
      if leb (hdr.n + hdr.r) hdr.index || get_or g.has_index hdr.index false
      then put_group s slot g
      else report_loss (try_decode passed slot stored hdr.n hdr.r)

  -- A new group in slot `slot`.
  unfoldable pub open_slot : Sys E → FecHeader → Sys E × FecGroup
  open_slot s hdr =
      let fresh = record zero_group { group_id = hdr.group_id; n = hdr.n; r = hdr.r } in
      let expected = u32 (s.tun.stats_expected_groups + (hdr.n + hdr.r)) in
      (record s { tun = record (s.tun) { stats_expected_groups = expected } }, fresh)

  unfoldable pub handle_incoming_fec_packet : Sys E → FecHeader → List ℕ → ℕ → Sys E
  unfolding find_group best_slot receive_in_group open_slot
  handle_incoming_fec_packet s hdr payload now =
      let opened = open_slot s hdr in
      let in_new : Sys E = elim (best_slot s.tun.groups 0 (2 ^ 64 - 1) none) [
        | none ↦ s
        | some slot ↦ receive_in_group opened.0 slot opened.1 hdr payload now
      ] in
      let in_group : Sys E = elim (find_group s.tun.groups hdr.group_id 0) [
        | none ↦ in_new
        | some slot ↦ receive_in_group s slot (get_or s.tun.groups slot zero_group) hdr payload now
      ] in
      if ltb fec_max_n hdr.n || ltb fec_max_r hdr.r || hdr.n == 0
      then s
      else if hdr.r == 0
      then input s payload
      else in_group
