-- ===== src/Tunnel/Framing.antt =====
-- The frames that `send_control_frame` builds, read back by the receiver.
use bi_tun.Base.{
  ℕ, ◌^◌, ◌<◌, ◌≡◌, ap, ap₂, ◌∙◌, refl, arith, ◌+◌, be32, u32, Option-cases, inl, inr, none, some,
  List, ◌++◌, length, get_elem?, ◌==◌, if◌then◌else◌, from_be-be16, from_be-be32,
  take-length_append,
}
use bi_tun.Tunnel.Types.{Channel}
use bi_tun.Tunnel.Host.{Host}
use bi_tun.Tunnel.Send.{Sys, control_frame, send_control_frame}
use bi_tun.Tunnel.Channels.{find_channel}
use bi_tun.Tunnel.Frames.{
  account, in_world, on_connect, on_channel_frame, on_feedback, on_data, handle_frame,
}

-- What the receiver does with a frame's channel, command, payload and length.
abbrev act_on : (E : Host) → Sys E → ℕ → ℕ → List ℕ → ℕ → ℕ → Sys E
act_on E s channel_id cmd payload payload_len now =
    let on_channel : Sys E = elim (find_channel s.tun.channels channel_id) [
      | none ↦ if cmd == 0x01 then on_connect E s channel_id payload else s
      | some idx ↦ elim (get_elem? s.tun.channels idx) [
        | none ↦ s
        | some ch ↦ if cmd == 0x01 then s else on_channel_frame E s idx ch cmd payload payload_len
      ]
    ] in
    if cmd == 0x05
    then record s { tun = record (s.tun) { last_recv_time = now } }
    else if cmd == 0x07
    then on_feedback E s payload payload_len
    else on_channel

handle_frame-control_frame :
    (E : Host) (s : Sys E) (channel_id cmd : ℕ) (payload held : List ℕ) (now : ℕ)
    → channel_id < 2 ^ 32
    → length payload < 2 ^ 16
    → handle_frame E s (control_frame channel_id cmd payload ++ held) now
      ≡ act_on E s channel_id cmd (payload ++ held) (length payload) now
unfolding handle_frame
handle_frame-control_frame E s channel_id cmd payload held now small short =
    ap₂ (λ id len. act_on E s id cmd (payload ++ held) len now) (from_be-be32 channel_id small)
      (from_be-be16 (length payload) short)

data_frame-on_data :
    (E : Host) (s : Sys E) (channel_id idx : ℕ) (ch : Channel) (payload held : List ℕ) (now : ℕ)
    → channel_id < 2 ^ 32
    → length payload < 2 ^ 16
    → find_channel s.tun.channels channel_id ≡ some idx
    → get_elem? s.tun.channels idx ≡ some ch
    → handle_frame E s (control_frame channel_id 0x03 payload ++ held) now
      ≡ on_data E s idx ch payload
unfolding on_channel_frame
data_frame-on_data E s channel_id idx ch payload held now small short found at =
    handle_frame-control_frame E s channel_id 0x03 payload held now small short
    ∙ rw (found, at) (ap (on_data E s idx ch) (take-length_append payload held))

send_control_frame-world :
    (E : Host) (s : Sys E) (id cmd : ℕ) (payload : List ℕ)
    → (send_control_frame E s id cmd payload).world ≡ s.world
unfolding send_control_frame
send_control_frame-world E s id cmd payload = elim (Option-cases s.tun.kcp) [
  | inl e ↦ rw e refl
  | inr (kcp, e) ↦ elim (Option-cases (Host.malloc E (8 + length payload))) [
    | inl f ↦ rw (e, send_control_frame, f) refl
    | inr (frame, f) ↦ rw (e, send_control_frame, f) refl
  ]
]

account-world :
    (E : Host) (s : Sys E) (idx : ℕ) (ch : Channel) (sent : ℕ)
    → (account E s idx ch sent).world ≡ s.world
unfolding account
account-world E s idx ch sent =
    let accum = u32 (ch.local_recv_accum + sent) in
    let reported = send_control_frame-world E s ch.channel_id 0x06 (be32 accum) in
    ground (arith, reported)

on_data-world :
    (E : Host) (s : Sys E) (idx fd : ℕ) (ch : Channel) (payload : List ℕ)
    → ch.tcp_fd ≡ some fd
    → (on_data E s idx ch payload).world ≡ (Host.send E fd payload s.world).1
unfolding on_data
on_data-world E s idx fd ch payload own = elim (Option-cases (Host.send E fd payload s.world).0) [
  | inl e ↦ rw (own, on_data, e) refl
  | inr (n, e) ↦
      rw (own, on_data, e)
        (account-world E (in_world E s (Host.send E fd payload s.world).1) idx ch n)
]

-- A DATA frame gives the connection of its channel the bytes that were sent and no other: with an id
-- of 32 bits that is in the receiver's table, a channel that has a connection, and a payload shorter
-- than 2 ^ 16, what the handling of the frame that `send_control_frame` built does to the world is
-- one `send` of exactly its payload to that connection, whatever the buffer holds behind the frame.
pub data_frame :
    (E : Host) (s : Sys E) (channel_id idx fd : ℕ) (ch : Channel) (payload held : List ℕ) (now : ℕ)
    → channel_id < 2 ^ 32
    → length payload < 2 ^ 16
    → find_channel s.tun.channels channel_id ≡ some idx
    → get_elem? s.tun.channels idx ≡ some ch
    → ch.tcp_fd ≡ some fd
    → (handle_frame E s (control_frame channel_id 0x03 payload ++ held) now).world
      ≡ (Host.send E fd payload s.world).1
data_frame E s channel_id idx fd ch payload held now small short found at own =
    ap (λ t. t.world)
      (data_frame-on_data E s channel_id idx ch payload held now small short found at)
    ∙ on_data-world E s idx fd ch payload own
