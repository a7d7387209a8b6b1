-- ===== src/Tunnel/Types.antt =====
-- The state of src/tunnel.h and src/fec.h. A descriptor of -1 is `none`, and so is a null `kcp`.
use bi_tun.Base.{ℕ, Bool, Option, List}
use bi_tun.Replay.{Window}
use bi_tun.Socks5.{Context}

-- `tunnel_state_t`
pub data TunnelState : Type 0 where
  disconnected punching auth connected : TunnelState

-- `fec_header_t`: `group_id` is kept in host order.
pub record FecHeader : Type 0 where
  pub group_id : ℕ
  pub index : ℕ
  pub n : ℕ
  pub r : ℕ

-- `fec_encoder_t`
pub record FecEncoder : Type 0 where
  pub current_group_id : ℕ
  pub data_packet_count : ℕ
  pub n : ℕ
  pub r : ℕ
  pub last_packet_time : ℕ
  pub data_lengths : List ℕ
  pub data_blocks : List (List ℕ)
  pub parity_blocks : List (List ℕ)

-- `fec_group_t`
pub record FecGroup : Type 0 where
  pub group_id : ℕ
  pub n : ℕ
  pub r : ℕ
  pub received_count : ℕ
  pub last_active_time : ℕ
  pub received_indices : List ℕ
  pub has_index : List Bool
  pub decoded : Bool
  pub received_blocks : List (List ℕ)

-- `struct sockaddr_in`, its address and port.
pub record Address : Type 0 where
  pub ip : List ℕ
  pub port : ℕ

-- `channel_t`
pub record Channel : Type 0 where
  pub channel_id : ℕ
  pub tcp_fd : Option ℕ
  pub is_active : Bool
  pub socks5_ctx : Context
  pub send_wnd : ℕ
  pub recv_wnd : ℕ
  pub local_recv_accum : ℕ
  pub socks5_handshake_done : Bool
  pub port : ℕ
  pub read_suspended : Bool

-- `tunnel_config_t`
pub record Config : Type 0 where
  pub local_ip : Option (List ℕ)
  pub local_port : ℕ
  pub remote_ip : Option (List ℕ)
  pub remote_port : ℕ
  pub psk : List ℕ

-- `tunnel_t`
pub record Tunnel (Kcp : Type 0) : Type 0 where
  pub config : Config
  pub state : TunnelState
  pub peer_addr : Address
  pub peer_addr_valid : Bool
  pub r_local : List ℕ
  pub r_remote : List ℕ
  pub is_odd_id_generator : Bool
  pub session_key : List ℕ
  pub seq_send : ℕ
  pub anti_replay_win : Window
  pub kcp : Option Kcp
  pub channels : List Channel
  pub last_recv_time : ℕ
  pub last_keepalive_time : ℕ
  pub last_ping_time : ℕ
  pub auth_start_time : ℕ
  pub last_reset_timestamp : ℕ
  pub last_reset_salt : ℕ
  pub fec_enc : FecEncoder
  pub groups : List FecGroup
  pub fec_n : ℕ
  pub fec_r : ℕ
  pub stats_expected_groups : ℕ
  pub stats_received_packets : ℕ
  pub stats_group_packet_count : ℕ
  pub last_stats_report_time : ℕ
  -- the static counters of the accept branch
  pub next_odd_id : ℕ
  pub next_even_id : ℕ
