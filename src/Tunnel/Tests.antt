-- ===== src/Tunnel/Tests.antt =====
-- The theorems of the tunnel on the toy host.
use bi_tun.Base.{
  ℕ, get_or, ◌-◌, ◌*◌, ◌/◌, ◌≡◌, ◌≤◌, ◌<◌, refl, ap, arith, true, false, not, ◌⊎◌, inr, none, some,
  List, [], ◌∷◌, ◌++◌, length, replicate, slice, memcmp_eq, be64,
}
use bi_tun.Socks5.{Context, forwarding}
use bi_tun.Tunnel.Types.{auth, connected, Channel}
use bi_tun.Tunnel.Host.{Host}
use bi_tun.Tunnel.Send.{fec_max_n, fec_max_r, header_bytes, Sys, next_seq}
use bi_tun.Tunnel.Receive.{on_packet}
use bi_tun.Tunnel.Handshake.{
  const_memcmp, resp_magic, response_of, reset_packet, on_reset, accept_reset, on_chal, on_resp,
  challenge_packet,
}
use bi_tun.Tunnel.Compare.{const_memcmp_lem}
use bi_tun.Tunnel.Rates.{loss_rate_lem, forward_bytes-loses, fec_for_loss-monotone}
use bi_tun.Tunnel.FecIn.{loss_rate}
use bi_tun.Tunnel.Local.{forward_bytes}
use bi_tun.Tunnel.Frames.{fec_for_loss}
use bi_tun.Tunnel.States.{on_packet-connected}
use bi_tun.Tunnel.Wire.{bare, wire_packet}
use bi_tun.Tunnel.Mutual.{answer_of, handshake_agrees}
use bi_tun.Tunnel.Replayed.{reset_replay_accepted}
use bi_tun.Tunnel.Toy.{toy, peer, in_state}

const_memcmp_example :
    const_memcmp (1 ∷ 2 ∷ []) (1 ∷ 3 ∷ []) 2 ≡ not (memcmp_eq 2 (1 ∷ 2 ∷ []) (1 ∷ 3 ∷ []))
const_memcmp_example = const_memcmp_lem (1 ∷ 2 ∷ []) (1 ∷ 3 ∷ []) 2

loss_rate_example : loss_rate 120 111 ≡ (120 - 111) * 100 / 120
loss_rate_example = loss_rate_lem 120 111 (omega arith)

-- The response that the peer owes us.
abbrev good_response : List ℕ
good_response = resp_magic ++ response_of toy (replicate 32 1) (replicate 32 2) (replicate 32 3)

on_packet-connected_example :
    ((in_state auth).tun.state ≡ connected)
    ⊎ ((in_state auth).tun.state ≡ auth)
      × (memcmp_eq 4 good_response resp_magic ≡ true)
      × (const_memcmp
            (response_of toy
              (in_state auth).tun.config.psk
              (in_state auth).tun.r_remote
              (in_state auth).tun.r_local)
            (slice good_response 4 32)
            32
          ≡ false)
unfolding on_packet on_resp const_memcmp
on_packet-connected_example = on_packet-connected toy (in_state auth) good_response peer 100 refl

abbrev first_packet : List ℕ
first_packet =
    wire_packet toy (next_seq toy (in_state connected)) (replicate 16 7)
      (header_bytes bare ++ (42 ∷ []))

-- The end that sends asks for no parity.
abbrev plain_end : Sys toy
plain_end = record (in_state connected) { tun = record ((in_state connected).tun) { fec_r = 0 } }

abbrev blank_context : Context
blank_context = record {
  state = forwarding;
  methods_left = 0;
  addr_type = 0;
  addr_len = 0;
  addr_idx = 0;
  port = 0;
  port_idx = 0;
  domain = none;
  ipv4 = replicate 4 0;
  ipv6 = replicate 16 0;
  req_hdr = replicate 4 0;
  req_hdr_idx = 0;
  method_idx = 0;
  found_no_auth = false;
}

-- A channel whose window takes two more bytes.
abbrev nearly_full : Channel
nearly_full = record {
  channel_id = 1;
  tcp_fd = some 4;
  is_active = true;
  socks5_ctx = blank_context;
  send_wnd = 2;
  recv_wnd = 4096;
  local_recv_accum = 0;
  socks5_handshake_done = true;
  port = 80;
  read_suspended = false;
}

forward_bytes-loses_example :
    forward_bytes toy (in_state connected) 0 nearly_full (65 ∷ 66 ∷ 67 ∷ 68 ∷ [])
    ≡ forward_bytes toy (in_state connected) 0 nearly_full (65 ∷ 66 ∷ [])
forward_bytes-loses_example =
    forward_bytes-loses toy (in_state connected) 0 nearly_full (65 ∷ 66 ∷ []) (67 ∷ 68 ∷ [])
      (inr refl)

fec_for_loss-monotone_example :
    ((fec_for_loss 3).1 * (fec_for_loss 15).0 ≤ (fec_for_loss 15).1 * (fec_for_loss 3).0)
    × (0 < (fec_for_loss 3).0)
    × ((fec_for_loss 3).0 ≤ fec_max_n)
    × ((fec_for_loss 3).1 ≤ fec_max_r)
fec_for_loss-monotone_example = fec_for_loss-monotone 3 15 (omega arith)

-- A reset signed by the peer at time 9000.
abbrev signed_reset : List ℕ
signed_reset = reset_packet toy (replicate 32 1) (be64 9000) (be64 5)

reset_replay_accepted_example :
    on_reset toy (on_reset toy (in_state connected) signed_reset peer 100) signed_reset peer 200
    ≡ accept_reset toy (on_reset toy (in_state connected) signed_reset peer 100) peer 200 9000 5
unfolding const_memcmp
reset_replay_accepted_example =
    reset_replay_accepted toy (in_state connected) signed_reset peer peer 100 200 (omega arith) refl
      (omega arith) (omega arith) (omega arith)

toy_mac : (key text : List ℕ) → length (Host.hmac_sha256 toy key text) ≡ 32
toy_mac key text = refl

abbrev other_end : Sys toy
other_end = record (in_state auth) {
  tun = record ((in_state auth).tun) { r_local = replicate 32 4 };
}

handshake_agrees_example :
    let a1 = on_chal toy (in_state auth) (challenge_packet toy (replicate 32 1) (replicate 32 4)) in
    let b1 = on_chal toy other_end (challenge_packet toy (replicate 32 1) (replicate 32 3)) in
    let a2 = on_resp toy a1 (answer_of toy b1) 100 in
    let b2 = on_resp toy b1 (answer_of toy a1) 200 in
    (a1.world ≡ answer_of toy a1 ∷ [])
    × (b1.world ≡ answer_of toy b1 ∷ [])
    × (a2.tun.state ≡ connected)
    × (b2.tun.state ≡ connected)
    × (a2.tun.session_key ≡ b2.tun.session_key)
    × (b2.tun.is_odd_id_generator ≡ not a2.tun.is_odd_id_generator)
handshake_agrees_example =
    handshake_agrees toy toy_mac (in_state auth) other_end 100 200 refl refl refl refl refl
      (λ e. absurd (omega (arith, ap (λ xs. get_or xs 0 0) e)))
