-- ===== src/Tunnel/Local.antt =====
-- Section 3 of `tunnel_run` for what is local: new SOCKS5 clients, the events of their connections
-- and of those to the targets, and the results of name resolution.
use bi_tun.Base.{
  ℕ, ◌+◌, ◌-◌, ◌^◌, Bool, true, false, not, ◌&&◌, ◌||◌, Option, none, some, List, [], ◌∷◌, ◌++◌,
  length, take, get_elem?, ltb, leb, ◌==◌, if◌then◌else◌, u8, u32, be16, c_string,
}
use bi_tun.Socks5.{Context, need_more, resolved, failed, fault, socks5_init, socks5_handle_input}
use bi_tun.Tunnel.Types.{Tunnel, Channel, Address}
use bi_tun.Tunnel.Host.{Host}
use bi_tun.Tunnel.Send.{Sys, send_control_frame}
use bi_tun.Tunnel.Channels.{find_index, find_channel, find_free, put_channel, close_channel}
use bi_tun.Tunnel.Frames.{in_world, refuse, connect_target}

-- `bitun_osal_dns_result_t`; the address is the IPv4 one, or the resolved one if there is any.
pub record DnsResult : Type 0 where
  pub channel_id : ℕ
  pub success : Bool
  pub resolved_ipv4 : List ℕ
  pub resolved_addr : Option (List ℕ)

-- The flags of an event.
pub record Events : Type 0 where
  pub poll_out : Bool
  pub poll_err : Bool
  pub poll_in : Bool

-- The payload of CONNECT, where the code sends one.
unfoldable pub connect_payload : Context → Option (List ℕ)
connect_payload ctx =
    if ctx.addr_type == 0x01
    then some (1 ∷ (be16 ctx.port ++ take 4 ctx.ipv4))
    else if ctx.addr_type == 0x03
    then elim ctx.domain [
      | none ↦ none
      | some domain ↦
          some (2 ∷ (be16 ctx.port ++ (u8 (length (c_string domain)) ∷ c_string domain)))
    ]
    else if ctx.addr_type == 0x04
    then some (3 ∷ (be16 ctx.port ++ take 16 ctx.ipv6))
    else none

-- The bytes of a read that are forwarded: not more than the window, nor than 2048. A window of
-- 2 ^ 31 or more is a negative `int`.
unfoldable pub forwarded : ℕ → ℕ → ℕ
forwarded read_len send_wnd =
    let capped : ℕ = if ltb send_wnd read_len then send_wnd else read_len in
    if leb (2 ^ 31) send_wnd then 0 else if ltb 2048 capped then 2048 else capped

module _ (E : Host) where
  open E use {
    accept, recv, send, connect_failed, set_nonblocking, close, poll_add_in, poll_mod_in, malloc,
    ikcp_waitsnd,
  }

  -- The next channel id of our parity.
  unfoldable pub next_id : Tunnel (Host.Kcp E) → ℕ × Tunnel (Host.Kcp E)
  next_id tun =
      if tun.is_odd_id_generator
      then (tun.next_odd_id, record tun { next_odd_id = u32 (tun.next_odd_id + 2) })
      else (tun.next_even_id, record tun { next_even_id = u32 (tun.next_even_id + 2) })

  unfoldable pub accept_client : Sys E → Sys E
  unfolding next_id
  accept_client s =
      let (client, world) = accept s.world in
      elim client [
        | none ↦ in_world E s world
        | some fd ↦
            let ready = set_nonblocking fd world in
            elim (find_free s.tun.channels) [
              | none ↦ in_world E s (close fd ready)
              | some idx ↦ elim (get_elem? s.tun.channels idx) [
                | none ↦ in_world E s ready
                | some slot ↦
                    let (id, tun) = next_id s.tun in
                    let ch = record slot {
                      is_active = true;
                      tcp_fd = some fd;
                      send_wnd = 4096;
                      recv_wnd = 4096;
                      local_recv_accum = 0;
                      socks5_handshake_done = false;
                      read_suspended = false;
                      socks5_ctx = socks5_init slot.socks5_ctx;
                      channel_id = id;
                    } in
                    put_channel E (record { tun = tun; world = poll_add_in fd ready }) idx ch
              ]
            ]
      ]

  -- The loop that suspends all active channels.
  unfoldable pub suspend_all : List Channel → List Channel
  suspend_all [] = []
  suspend_all (ch ∷ rest) =
      (if ch.is_active then record ch { read_suspended = true } else ch) ∷ suspend_all rest

  unfoldable pub on_socks5_bytes : Sys E → ℕ → Channel → ℕ → List ℕ → Sys E
  on_socks5_bytes s idx ch fd bytes =
      let (ctx, resp, outcome) = socks5_handle_input malloc ch.socks5_ctx bytes in
      let world : Host.World E = if length resp == 0 then s.world else (send fd resp s.world).1 in
      let parsed = put_channel E (in_world E s world) idx (record ch { socks5_ctx = ctx }) in
      let done =
        put_channel E (in_world E s world) idx
          (record ch { socks5_ctx = ctx; socks5_handshake_done = true; port = ctx.port }) in
      let closed =
        send_control_frame E (close_channel E parsed ch.channel_id) ch.channel_id 0x04 (1 ∷ []) in
      elim outcome [
        | need_more ↦ parsed
        | resolved ↦ elim (connect_payload ctx) [
          | none ↦ done
          | some payload ↦ send_control_frame E done ch.channel_id 0x01 payload
        ]
        | failed ↦ closed
        | fault ↦ parsed
      ]

  unfoldable pub forward_bytes : Sys E → ℕ → Channel → List ℕ → Sys E
  unfolding forwarded
  forward_bytes s idx ch bytes =
      let to_read = forwarded (length bytes) ch.send_wnd in
      let sent = send_control_frame E s ch.channel_id 0x03 (take to_read bytes) in
      if to_read == 0
      then s
      else put_channel E sent idx (record ch { send_wnd = ch.send_wnd - to_read })

  unfoldable pub on_readable : Sys E → ℕ → Channel → ℕ → Sys E
  unfolding on_socks5_bytes forward_bytes
  on_readable s idx ch fd =
      let (received, world) = recv fd s.world in
      let read = in_world E s world in
      elim received [
        | none ↦ read
        | some [] ↦
            send_control_frame E (close_channel E read ch.channel_id) ch.channel_id 0x04 (1 ∷ [])
        | some (byte ∷ rest) ↦
            if ch.socks5_handshake_done
            then forward_bytes read idx ch (byte ∷ rest)
            else on_socks5_bytes read idx ch fd (byte ∷ rest)
      ]

  unfoldable pub is_congested : Tunnel (Host.Kcp E) → Bool
  is_congested tun = elim tun.kcp [ none ↦ false | some kcp ↦ leb 32 (ikcp_waitsnd kcp) ]

  unfoldable pub on_event : Sys E → ℕ → Channel → ℕ → Events → Sys E
  unfolding on_readable is_congested suspend_all
  on_event s idx ch fd events =
      let (bad, world) = connect_failed fd s.world in
      let answered = send_control_frame E (in_world E s world) ch.channel_id 0x02 (0 ∷ []) in
      if events.poll_out
      then (if bad
          then refuse E (in_world E s world) ch.channel_id
          else in_world E answered (poll_mod_in fd answered.world))
      else if events.poll_err
      then send_control_frame E (close_channel E s ch.channel_id) ch.channel_id 0x04 (2 ∷ [])
      else if not events.poll_in || ch.read_suspended
      then s
      else if is_congested s.tun
      then record s { tun = record (s.tun) { channels = suspend_all s.tun.channels } }
      else on_readable s idx ch fd

  abbrev pub owns : ℕ → Channel → Bool
  owns fd ch = ch.is_active && (elim ch.tcp_fd [ none ↦ false | some own ↦ own == fd ])

  unfoldable pub on_tcp_event : Sys E → ℕ → Events → Sys E
  unfolding on_event
  on_tcp_event s fd events = elim (find_index (owns fd) s.tun.channels 0) [
    | none ↦ s
    | some idx ↦ elim (get_elem? s.tun.channels idx) [
      | none ↦ s
      | some ch ↦ on_event s idx ch fd events
    ]
  ]

  unfoldable pub on_dns_result : Sys E → DnsResult → Sys E
  on_dns_result s res =
      let ip : List ℕ = elim res.resolved_addr [
        | none ↦ take 4 res.resolved_ipv4
        | some addr ↦ addr
      ] in
      elim (find_channel s.tun.channels res.channel_id) [
        | none ↦ s
        | some idx ↦ elim (get_elem? s.tun.channels idx) [
          | none ↦ s
          | some ch ↦
              let target : Address = record { ip = ip; port = ch.port } in
              if res.success then connect_target E s idx ch target else refuse E s ch.channel_id
        ]
      ]
