-- ===== src/Tunnel/Send.antt =====
-- Sending: `encrypt_and_send_udp`, `send_parity_packets`, `kcp_output_cb`, `send_control_frame`.
use bi_tun.Base.{
  ℕ, zero, suc, ◌+◌, Bool, true, false, ◌||◌, none, some, List, [], ◌∷◌, ◌++◌, length, set, get_or,
  ltb, leb, ◌==◌, if◌then◌else◌, u16, u64, replicate, be16, be32, be64, padded,
}
use bi_tun.Fec.{fec_encode}
use bi_tun.Tunnel.Types.{Tunnel, FecHeader, FecEncoder}
use bi_tun.Tunnel.Host.{Host}

abbrev pub fec_max_n : ℕ
fec_max_n = 16

abbrev pub fec_max_r : ℕ
fec_max_r = 8

abbrev pub fec_block_size : ℕ
fec_block_size = 1408

-- The six bytes of a `fec_header_t` on the wire.
abbrev pub header_bytes : FecHeader → List ℕ
header_bytes h = be16 h.group_id ++ (h.index ∷ h.n ∷ h.r ∷ 0 ∷ [])

-- The tunnel and the world around it.
pub record Sys (E : Host) : Type 0 where
  pub tun : Tunnel (Host.Kcp E)
  pub world : Host.World E

abbrev pub nonce_of : ℕ → List ℕ
nonce_of seq = be64 seq ++ replicate 4 0

-- The frame that carries a command over KCP.
abbrev pub control_frame : ℕ → ℕ → List ℕ → List ℕ
control_frame channel_id cmd payload =
    be32 channel_id ++ (cmd ∷ 0x00 ∷ (be16 (length payload) ++ payload))

module _ (E : Host) where
  open E use {real_ms, malloc, aead_encrypt, sendto, ikcp_send}

  -- `++tun->seq_send`, and the nonce made of it.
  unfoldable pub next_seq : Sys E → ℕ
  next_seq s = u64 (s.tun.seq_send + 1)

  -- The result is true for 0 and false for -1.
  unfoldable pub encrypt_and_send_udp : Sys E → FecHeader → List ℕ → Bool × Sys E
  unfolding next_seq
  encrypt_and_send_udp s hdr payload =
      let seq = next_seq s in
      let tun = record (s.tun) { seq_send = seq } in
      let total_payload_len = 6 + length payload in
      let out_len = 8 + 12 + 16 + total_payload_len in
      if s.tun.peer_addr_valid
      then (if ltb 1414 total_payload_len || ltb 1500 out_len
          then (false, record s { tun = tun })
          else elim (aead_encrypt tun.session_key (nonce_of seq) (header_bytes hdr ++ payload)) [
            | none ↦ (false, record s { tun = tun })
            | some (ciphertext, tag) ↦
                let packet = be64 seq ++ (nonce_of seq ++ (tag ++ ciphertext)) in
                (true, record { tun = tun; world = sendto packet tun.peer_addr s.world })
          ])
      else (true, s)

  abbrev pub set_enc : Sys E → FecEncoder → Sys E
  set_enc s enc = record s { tun = record (s.tun) { fec_enc = enc } }

  -- The loop that sends parity block `i`, with `left` to go.
  unfoldable pub send_parity_loop : ℕ → ℕ → ℕ → ℕ → Sys E → Sys E
  send_parity_loop zero i n r s = s
  send_parity_loop (suc left) i n r s =
      let enc = s.tun.fec_enc in
      let hdr : FecHeader = record {
        group_id = enc.current_group_id;
        index = n + i;
        n = n;
        r = r;
      } in
      send_parity_loop left (i + 1) n r
        (encrypt_and_send_udp s hdr (get_or enc.parity_blocks i [])).1

  unfoldable pub send_parity_packets : Sys E → Sys E
  unfolding send_parity_loop
  send_parity_packets s =
      let enc = s.tun.fec_enc in
      let n = enc.data_packet_count in
      let r = enc.r in
      let parity = fec_encode enc.data_blocks n r fec_block_size enc.parity_blocks in
      let sent = send_parity_loop r 0 n r (set_enc s (record enc { parity_blocks = parity })) in
      if leb r 0 || n == 0
      then set_enc s (record enc { data_packet_count = 0 })
      else set_enc sent (record (sent.tun.fec_enc) { data_packet_count = 0 })

  -- The group that the first packet opens.
  unfoldable pub open_group : Sys E → Sys E
  open_group s =
      let tun = s.tun in
      let enc = tun.fec_enc in
      let (now, world) = real_ms s.world in
      let capped = if ltb fec_max_n tun.fec_n then fec_max_n else tun.fec_n in
      record {
        tun = record tun {
          fec_enc = record enc {
            n = if capped == 0 then 1 else capped;
            r = if ltb fec_max_r tun.fec_r then fec_max_r else tun.fec_r;
            current_group_id = u16 (enc.current_group_id + 1);
            last_packet_time = now;
          };
        };
        world = world;
      }

  -- The block that is kept of a packet: its length, its bytes, and zeros. A packet of more than 1406
  -- bytes, which the code would copy past the block and the model cuts, does not come: KCP's MTU is
  -- 1400.
  abbrev pub packet_block : List ℕ → List ℕ
  packet_block buf = padded (be16 (u16 (length buf)) ++ buf) fec_block_size

  unfoldable pub keep_packet : Sys E → ℕ → List ℕ → Sys E
  keep_packet s idx buf =
      let enc = s.tun.fec_enc in
      set_enc s (record enc {
        data_lengths = set enc.data_lengths idx (u16 (length buf));
        data_blocks = set enc.data_blocks idx (packet_block buf);
      })

  -- The part of `kcp_output_cb` with parity.
  unfoldable pub output_with_parity : Sys E → List ℕ → Sys E
  unfolding open_group keep_packet
  output_with_parity s buf =
      let idx = s.tun.fec_enc.data_packet_count in
      let kept = keep_packet (if idx == 0 then open_group s else s) idx buf in
      let enc = kept.tun.fec_enc in
      let hdr : FecHeader = record {
        group_id = enc.current_group_id;
        index = idx;
        n = enc.n;
        r = enc.r;
      } in
      let sent = (encrypt_and_send_udp kept hdr buf).1 in
      let counted = set_enc sent (record (sent.tun.fec_enc) {
        data_packet_count = sent.tun.fec_enc.data_packet_count + 1;
      }) in
      if leb counted.tun.fec_enc.n counted.tun.fec_enc.data_packet_count
      then send_parity_packets counted
      else counted

  unfoldable pub kcp_output_cb : Sys E → List ℕ → Sys E
  unfolding output_with_parity
  kcp_output_cb s buf =
      let bare : FecHeader = record { group_id = 0; index = 0; n = 1; r = 0 } in
      if s.tun.peer_addr_valid
      then (if s.tun.fec_r == 0
          then (encrypt_and_send_udp s bare buf).1
          else output_with_parity s buf)
      else s

  unfoldable pub send_control_frame : Sys E → ℕ → ℕ → List ℕ → Sys E
  send_control_frame s channel_id cmd payload = elim s.tun.kcp [
    | none ↦ s
    | some kcp ↦ elim (malloc (8 + length payload)) [
      | none ↦ s
      | some frame ↦ record s {
        tun = record (s.tun) { kcp = some (ikcp_send kcp (control_frame channel_id cmd payload)) };
      }
    ]
  ]
