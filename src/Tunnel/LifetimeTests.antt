-- ===== src/Tunnel/LifetimeTests.antt =====
-- Resets, timeouts, channel ids and frames on the toy host.
use bi_tun.Base.{
  ℕ, ◌≡◌, ◌≢◌, refl, arith, true, false, none, some, [], ◌∷◌, ◌++◌, replicate, get_elem?, get_or,
  inl,
}
use bi_tun.Tunnel.Types.{Tunnel, disconnected, connected, Channel}
use bi_tun.Tunnel.Host.{Host}
use bi_tun.Tunnel.Send.{Sys, control_frame}
use bi_tun.Tunnel.Channels.{find_index, find_channel, reset_tunnel}
use bi_tun.Tunnel.Frames.{handle_frame}
use bi_tun.Tunnel.Tick.{tick}
use bi_tun.Tunnel.Setup.{zero_channel}
use bi_tun.Tunnel.Toy.{toy, in_state}
use bi_tun.Tunnel.Reset.{reset_tunnel-closed}
use bi_tun.Tunnel.Timeouts.{tick-timeout}
use bi_tun.Tunnel.Ids.{ids, ids-apart}
use bi_tun.Tunnel.Framing.{data_frame}

-- Two channels of one id, both with a connection.
abbrev busy : Channel
busy = record zero_channel { channel_id = 7; is_active = true; tcp_fd = some 9; send_wnd = 100 }

abbrev two_busy : Sys toy
two_busy = record (in_state connected) {
  tun = record ((in_state connected).tun) { channels = busy ∷ busy ∷ [] };
}

reset_tunnel-closed_example :
    let t = (reset_tunnel toy two_busy).tun in
    ((k : ℕ) (ch : Channel) → get_elem? t.channels k ≡ some ch → ch.is_active ≡ false)
    × (t.state ≡ disconnected)
    × (t.kcp ≡ none)
    × (t.session_key ≡ replicate 32 0)
reset_tunnel-closed_example = reset_tunnel-closed toy two_busy (omega arith)

tick-timeout_example :
    let t = (tick toy two_busy 30001).tun in
    ((k : ℕ) (ch : Channel) → get_elem? t.channels k ≡ some ch → ch.is_active ≡ false)
    × (t.state ≡ disconnected)
    × (t.kcp ≡ none)
    × (t.session_key ≡ replicate 32 0)
tick-timeout_example = tick-timeout toy two_busy 30001 (inl (refl, omega arith)) (omega arith)

abbrev even_end : Tunnel (Host.Kcp toy)
even_end = record ((in_state connected).tun) { is_odd_id_generator = false }

ids-apart_example :
    (get_or (ids toy 3 (in_state connected).tun) 1 0
      ≢ get_or (ids toy 3 (in_state connected).tun) 2 0)
    × (get_or (ids toy 3 (in_state connected).tun) 2 0 ≢ get_or (ids toy 3 even_end) 1 0)
ids-apart_example =
    ids-apart toy (in_state connected).tun even_end (refl, refl, omega arith, omega arith)
      (refl, refl, omega arith, omega arith) refl 3 3 1 2 1 (omega arith) (omega arith)
      (omega arith) (omega arith)

second_found : find_channel (zero_channel ∷ busy ∷ []) 7 ≡ some 1
unfolding find_channel find_index
second_found = refl

abbrev one_busy : Sys toy
one_busy = record (in_state connected) {
  tun = record ((in_state connected).tun) { channels = zero_channel ∷ busy ∷ [] };
}

data_frame_example :
    (handle_frame toy one_busy (control_frame 7 0x03 (1 ∷ 2 ∷ 3 ∷ []) ++ (8 ∷ 8 ∷ [])) 50).world
    ≡ (1 ∷ 2 ∷ 3 ∷ []) ∷ []
data_frame_example =
    data_frame toy one_busy 7 1 9 busy (1 ∷ 2 ∷ 3 ∷ []) (8 ∷ 8 ∷ []) 50 (omega arith) (omega arith)
      second_found refl refl
