-- ===== src/Tunnel/Setup/Tests.antt =====
-- Set-up and tear-down on a host that hands out descriptors in turn and counts the open ones.
use bi_tun.Base.{
  ℕ, suc, ◌+◌, ◌-◌, ◌≤◌, ◌<◌, ◌≡◌, refl, Bool, true, false, Option, none, some, [], length,
  replicate,
}
use bi_tun.Tunnel.Types.{Config}
use bi_tun.Tunnel.Host.{Host}
use bi_tun.Tunnel.Send.{Sys}
use bi_tun.Tunnel.Setup.{
  Platform, Process, initial_tunnel, init_fec, init_listener, init_queue, init_socket, tunnel_init,
  tunnel_destroy,
}
use bi_tun.Tunnel.Setup.Ledger.{owned, tunnel_init-held}
use bi_tun.Tunnel.Setup.Counts.{Ledger, one}
use bi_tun.Tunnel.Setup.Closing.{destroy-init}
use bi_tun.Tunnel.Run.{poll_timeout, tunnel_run, poll_timeout-bounds}
use bi_tun.Tunnel.Live.{is_some}
use bi_tun.Tunnel.Live.Rounds.{tunnel_run-connected}
use bi_tun.Tunnel.Handshake.{is_connected}

-- The next descriptor, and how many of each number are open.
record Desk : Type 0 where
  pub next : ℕ
  pub open_fds : ℕ → ℕ

abbrev open_one : Desk → Option ℕ × Desk
open_one d =
    (some d.next, record { next = suc d.next; open_fds = λ k. d.open_fds k + one d.next k })

abbrev close_one : ℕ → Desk → Desk
close_one fd d = record d { open_fds = λ k. d.open_fds k - one fd k }

abbrev desk : Host
desk = record {
  World = Desk;
  Kcp = Unit {0};
  real_ms = λ w. (9000, w);
  random_bytes = λ n w. (replicate n 5, w);
  random_u32 = λ w. (5, w);
  padding = replicate 4 0;
  malloc = λ n. some (replicate n 0);
  hmac_sha256 = λ key text. replicate 32 0;
  aead_encrypt = λ key nonce plain. some (plain, replicate 16 7);
  aead_decrypt = λ key nonce tag ciphertext. some ciphertext;
  sendto = λ packet addr w. w;
  socket_create = λ w. open_one w;
  set_nonblocking = λ fd w. w;
  connect_started = λ fd addr w. (true, w);
  send = λ fd bytes w. (some (length bytes), w);
  close = λ fd w. close_one fd w;
  poll_add_in = λ fd w. w;
  poll_add_in_out = λ fd w. w;
  poll_mod_in = λ fd w. w;
  poll_del = λ fd w. w;
  accept = λ w. (none, w);
  recv = λ fd w. (none, w);
  connect_failed = λ fd w. (false, w);
  dns_resolve_async = λ domain id w. w;
  ikcp_create = λ conv. tt;
  ikcp_wndsize = λ kcp a b. kcp;
  ikcp_setmtu = λ kcp mtu. kcp;
  ikcp_nodelay = λ kcp a b c d. kcp;
  ikcp_send = λ kcp bytes. kcp;
  ikcp_input = λ kcp bytes. kcp;
  ikcp_waitsnd = λ kcp. 0;
  ikcp_recv = λ kcp. (none, kcp);
  ikcp_update = λ kcp now. ([], kcp);
}

-- With a `listen` that succeeds or fails.
abbrev desk_platform : Bool → Platform desk
desk_platform listens = record {
  mutex_create = λ w. w;
  mutex_lock = λ w. w;
  mutex_unlock = λ w. w;
  mutex_destroy = λ w. w;
  socket_dgram = λ w. open_one w;
  set_reuseaddr = λ fd w. w;
  bind = λ fd addr w. (true, w);
  listen = λ fd w. (listens, w);
  inet_pton = λ text. none;
  poll_create = λ w. open_one w;
  poll_destroy = λ fd w. close_one fd w;
  queue_create = λ w. open_one w;
  queue_destroy = λ fd w. close_one fd w;
  queue_clear_wakeup = λ fd w. w;
  queue_pop = λ fd w. (none, w);
  poll_wait = λ timeout w. ([], w);
  recvfrom = λ w. (none, w);
  time_ms = λ w. (1000, w);
  ikcp_check = λ kcp now. now;
  should_exit = λ w. false;
  stack = [];
}

abbrev desk_ledger : (listens : Bool) → Ledger desk (desk_platform listens)
desk_ledger listens = record {
  held = λ w k. w.open_fds k;
  dgram_opens = λ w k. refl;
  stream_opens = λ w k. refl;
  poll_opens = λ w k. refl;
  queue_opens = λ w k. refl;
  close_closes = λ fd w k. refl;
  poll_closes = λ fd w k. refl;
  queue_closes = λ fd w k. refl;
  create_keeps = λ w k. refl;
  lock_keeps = λ w k. refl;
  unlock_keeps = λ w k. refl;
  destroy_keeps = λ w k. refl;
  nonblocking_keeps = λ fd w k. refl;
  reuseaddr_keeps = λ fd w k. refl;
  bind_keeps = λ fd a w k. refl;
  listen_keeps = λ fd w k. refl;
  poll_add_keeps = λ fd w k. refl;
  real_ms_keeps = λ w k. refl;
  pop_keeps = λ queue w k. refl;
}

abbrev start : Desk
start = record { next = 3; open_fds = λ k. 0 }

abbrev on_port : Config
on_port = record {
  local_ip = none;
  local_port = 9000;
  remote_ip = none;
  remote_port = 0;
  psk = replicate 32 1;
}

-- The listener fails: the four descriptors are closed again.
tunnel_init-held_example :
    (tunnel_init desk (desk_platform false) on_port 1 2 start).1.open_fds 5
    ≡ 0
      + owned desk
          (desk_platform false)
          (desk_ledger false)
          (tunnel_init desk (desk_platform false) on_port 1 2 start).0
          5
tunnel_init-held_example =
    tunnel_init-held desk (desk_platform false) (desk_ledger false) on_port 1 2 start 5

abbrev running_tunnel : Process desk
running_tunnel = record {
  sys = record {
    tun = initial_tunnel desk (desk_platform true) on_port 9000 1 2;
    world = (tunnel_init desk (desk_platform true) on_port 1 2 start).1;
  };
  udp_fd = 3;
  tcp_listen_fd = some 6;
  poll_set = some 4;
  dns_queue = some 5;
  running = false;
}

made : (tunnel_init desk (desk_platform true) on_port 1 2 start).0 ≡ some running_tunnel
unfolding tunnel_init init_socket init_queue init_listener init_fec
made = refl

destroy-init_example :
    (tunnel_destroy desk (desk_platform true) 1 running_tunnel).sys.world.open_fds 6 ≡ 0
destroy-init_example =
    destroy-init desk (desk_platform true) (desk_ledger true) on_port 1 2 start 1 running_tunnel
      made 6

abbrev with_session : Sys desk
with_session = record (running_tunnel.sys) {
  tun = record (running_tunnel.sys.tun) { kcp = some tt };
}

poll_timeout-bounds_example :
    (0 < poll_timeout desk (desk_platform true) with_session 1000)
    × (poll_timeout desk (desk_platform true) with_session 1000 ≤ 50)
poll_timeout-bounds_example = poll_timeout-bounds desk (desk_platform true) with_session 1000

abbrev begun_with_session : Process desk
begun_with_session = record running_tunnel { sys = with_session }

-- The run begins with a reset, so it may start with a KCP in a state that is not connected.
tunnel_run-connected_example :
    let t = (tunnel_run desk (desk_platform true) 2 begun_with_session).sys.tun in
    is_some t.kcp ≡ is_connected t.state
tunnel_run-connected_example = tunnel_run-connected desk (desk_platform true) 2 begun_with_session
