-- ===== src/Tunnel/Receive.antt =====
-- The branch of `tunnel_run` for a packet from the network: the handshake packets by their magic,
-- and anything else as an encrypted packet of the session.
use bi_tun.Base.{
  ℕ, Bool, not, ◌&&◌, ◌||◌, none, some, List, length, drop, get_or, ltb, leb, ◌==◌, if◌then◌else◌,
  slice, from_be, memcmp_eq,
}
use bi_tun.Replay.{anti_replay_check, anti_replay_update}
use bi_tun.Tunnel.Types.{Address, FecHeader}
use bi_tun.Tunnel.Host.{Host}
use bi_tun.Tunnel.Send.{Sys}
use bi_tun.Tunnel.FecIn.{handle_incoming_fec_packet}
use bi_tun.Tunnel.Handshake.{
  ping_magic, pong_magic, chal_magic, resp_magic, reset_magic, is_connected, on_ping, on_pong,
  on_chal, on_resp, on_reset,
}

abbrev pub same_address : Address → Address → Bool
same_address a b = memcmp_eq 4 a.ip b.ip && (a.port == b.port)

-- The six bytes in front of a decrypted payload.
abbrev pub header_of : List ℕ → FecHeader
header_of bytes = record {
  group_id = from_be (slice bytes 0 2);
  index = get_or bytes 2 0;
  n = get_or bytes 3 0;
  r = get_or bytes 4 0;
}

module _ (E : Host) where
  open E use {aead_decrypt}

  -- A packet whose tag verified.
  unfoldable pub accept_packet : Sys E → ℕ → List ℕ → Address → ℕ → Sys E
  accept_packet s seq plain from now =
      let known = record s {
        tun = record (s.tun) {
          anti_replay_win = anti_replay_update s.tun.anti_replay_win seq;
          peer_addr = if same_address from s.tun.peer_addr then s.tun.peer_addr else from;
        };
      } in
      let passed =
        if leb 6 (length plain)
        then handle_incoming_fec_packet E known (header_of plain) (drop 6 plain) now
        else known in
      record passed { tun = record (passed.tun) { last_recv_time = now } }

  unfoldable pub on_encrypted : Sys E → List ℕ → Address → ℕ → Sys E
  unfolding accept_packet
  on_encrypted s buf from now =
      let seq = from_be (slice buf 0 8) in
      let opened =
        aead_decrypt s.tun.session_key (slice buf 8 12) (slice buf 20 16) (drop 36 buf) in
      if not (is_connected s.tun.state)
        || ltb (length buf) 36
        || not (anti_replay_check s.tun.anti_replay_win seq)
      then s
      else elim opened [ none ↦ s | some plain ↦ accept_packet s seq plain from now ]

  unfoldable pub on_packet : Sys E → List ℕ → Address → ℕ → Sys E
  unfolding on_encrypted
  on_packet s buf from now =
      if length buf == 0
      then s
      else if ltb (length buf) 4
      then on_encrypted s buf from now
      else if memcmp_eq 4 buf ping_magic
      then on_ping E s buf from now
      else if memcmp_eq 4 buf pong_magic
      then on_pong E s buf now
      else if memcmp_eq 4 buf chal_magic
      then on_chal E s buf
      else if memcmp_eq 4 buf resp_magic
      then on_resp E s buf now
      else if memcmp_eq 4 buf reset_magic
      then on_reset E s buf from now
      else on_encrypted s buf from now
