-- ===== src/Tunnel/States.antt =====
-- Which state the handlers of a packet leave the tunnel in.
use bi_tun.Base.{
  ℕ, zero, suc, ◌+◌, ◌-◌, ◌^◌, ◌≡◌, refl, sym, ◌∙◌, arith, Bool, true, false, ◌&&◌, none, List, [],
  ◌∷◌, length, ltb, leb, ◌==◌, if◌then◌else◌, slice, drop, get_or, u32, from_be, memcmp_eq, ◌⊎◌,
  inl, inr, Option-cases,
}
use bi_tun.Fec.{fec_decode}
use bi_tun.Replay.{anti_replay_update}
use bi_tun.Tunnel.Types.{auth, connected, Address, FecHeader, FecGroup}
use bi_tun.Tunnel.Host.{Host}
use bi_tun.Tunnel.Send.{Sys, send_control_frame, fec_block_size}
use bi_tun.Tunnel.Channels.{}
use bi_tun.Tunnel.FecIn.{
  deliver_loop, try_decode, report_loss, receive_in_group, open_slot, handle_incoming_fec_packet,
  input, put_group, store_block, loss_rate, find_group, best_slot, zero_group,
}
use bi_tun.Tunnel.Handshake.{
  const_memcmp, ping_magic, pong_magic, chal_magic, resp_magic, reset_magic, response_of,
  begin_auth, start_session, on_ping, on_pong, on_chal, on_resp, on_reset, accept_reset,
}
use bi_tun.Tunnel.Receive.{same_address, header_of, accept_packet, on_encrypted, on_packet}

by_cases {ℓ} :
    {A : Type ℓ} {x y : A} (P : A → Type 0) (b : Bool)
    → (b ≡ true → P x)
    → P y
    → P (if b then x else y)
by_cases P true px py = px refl
by_cases P false px py = py

module _ (E : Host) where
  -- `s` and `t` are in the same state.
  abbrev pub SameState : Sys E → Sys E → Type 0
  SameState s t = t.tun.state ≡ s.tun.state

  input-SameState : (s : Sys E) (payload : List ℕ) → SameState s (input E s payload)
  input-SameState s payload = elim (Option-cases s.tun.kcp) [
    | inl e ↦ rw e refl
    | inr (kcp, e) ↦ rw e refl
  ]

  send_control_frame-SameState :
      (s : Sys E) (id cmd : ℕ) (payload : List ℕ)
      → SameState s (send_control_frame E s id cmd payload)
  unfolding send_control_frame
  send_control_frame-SameState s id cmd payload = ground arith

  deliver_loop-SameState :
      (has_index : List Bool) (recovered : List (List ℕ)) (left i : ℕ) (s : Sys E)
      → SameState s (deliver_loop E has_index recovered left i s)
  unfolding deliver_loop
  deliver_loop-SameState has_index recovered zero i s = refl
  deliver_loop-SameState has_index recovered (suc left) i s =
      let block = get_or recovered i [] in
      let orig_len = from_be (slice block 0 2) in
      let next : Sys E =
        if get_or has_index i false
        then s
        else if ltb 0 orig_len && leb orig_len 1400
        then input E s (slice block 2 orig_len)
        else s in
      let one : SameState s next = ground (arith, input-SameState s (slice block 2 orig_len)) in
      deliver_loop-SameState has_index recovered left (i + 1) next ∙ one

  try_decode-SameState :
      (s : Sys E) (slot : ℕ) (g : FecGroup) (n r : ℕ) → SameState s (try_decode E s slot g n r)
  unfolding try_decode
  try_decode-SameState s slot g n r =
      let done = put_group E s slot (record g { decoded = true }) in
      let answer =
        fec_decode g.received_blocks g.received_indices g.received_count n fec_block_size in
      elim (Option-cases answer) [
        | inl failed ↦ rw failed (ground arith)
        | inr (recovered, found) ↦
            rw found (ground (arith, deliver_loop-SameState g.has_index recovered n 0 done))
      ]

  report_loss-SameState : (s : Sys E) → SameState s (report_loss E s)
  unfolding report_loss
  report_loss-SameState s =
      let (now_ms, world) = Host.real_ms E s.world in
      let rate = loss_rate s.tun.stats_expected_groups s.tun.stats_received_packets in
      ground (arith, send_control_frame-SameState (record s { world = world }) 0 0x07 (rate ∷ []))

  receive_in_group-SameState :
      (s : Sys E) (slot : ℕ) (found : FecGroup) (hdr : FecHeader) (payload : List ℕ) (now : ℕ)
      → SameState s (receive_in_group E s slot found hdr payload now)
  unfolding receive_in_group
  receive_in_group-SameState s slot found hdr payload now =
      let g = record found { last_active_time = now } in
      let stored = store_block g hdr.index hdr.n payload in
      let counted = record s {
        tun = record (s.tun) {
          stats_received_packets = u32 (s.tun.stats_received_packets + 1);
          stats_group_packet_count = u32 (s.tun.stats_group_packet_count + 1);
        };
      } in
      let kept = put_group E counted slot stored in
      let passed : Sys E = if ltb hdr.index hdr.n then input E kept payload else kept in
      let one : SameState s passed = ground (arith, input-SameState kept payload) in
      let decoded = try_decode E passed slot stored hdr.n hdr.r in
      let whole =
        report_loss-SameState decoded ∙ try_decode-SameState passed slot stored hdr.n hdr.r ∙ one in
      ground (arith, whole)

  handle_incoming-SameState :
      (s : Sys E) (hdr : FecHeader) (payload : List ℕ) (now : ℕ)
      → SameState s (handle_incoming_fec_packet E s hdr payload now)
  unfolding handle_incoming_fec_packet open_slot
  handle_incoming-SameState s hdr payload now =
      let opened = open_slot E s hdr in
      let passed = input-SameState s payload in
      elim (Option-cases (find_group s.tun.groups hdr.group_id 0)) [
        | inr (slot, found) ↦
            let kept = get_or s.tun.groups slot zero_group in
            rw found
              (ground (arith, passed, receive_in_group-SameState s slot kept hdr payload now))
        | inl new ↦ elim (Option-cases (best_slot s.tun.groups 0 (2 ^ 64 - 1) none)) [
          | inl full ↦ rw (new, full) (ground (arith, passed))
          | inr (slot, free) ↦
              rw (new, free)
                (ground (
                  arith,
                  passed,
                  receive_in_group-SameState opened.0 slot opened.1 hdr payload now,
                ))
        ]
      ]

  accept_packet-SameState :
      (s : Sys E) (seq : ℕ) (plain : List ℕ) (from : Address) (now : ℕ)
      → SameState s (accept_packet E s seq plain from now)
  unfolding accept_packet
  accept_packet-SameState s seq plain from now =
      let known = record s {
        tun = record (s.tun) {
          anti_replay_win = anti_replay_update s.tun.anti_replay_win seq;
          peer_addr = if same_address from s.tun.peer_addr then s.tun.peer_addr else from;
        };
      } in
      ground (arith, handle_incoming-SameState known (header_of plain) (drop 6 plain) now)

  on_encrypted-SameState :
      (s : Sys E) (buf : List ℕ) (from : Address) (now : ℕ)
      → SameState s (on_encrypted E s buf from now)
  unfolding on_encrypted
  on_encrypted-SameState s buf from now =
      let opened =
        Host.aead_decrypt E s.tun.session_key (slice buf 8 12) (slice buf 20 16) (drop 36 buf) in
      elim (Option-cases opened) [
        | inl failed ↦ rw failed (ground arith)
        | inr (plain, found) ↦
            rw found
              (ground (arith, accept_packet-SameState s (from_be (slice buf 0 8)) plain from now))
      ]

  on_ping-state :
      (s : Sys E) (buf : List ℕ) (from : Address) (now : ℕ)
      → (on_ping E s buf from now).tun.state ≡ connected
      → s.tun.state ≡ connected
  unfolding on_ping begin_auth
  on_ping-state s buf from now h = ground (arith, h)

  on_pong-state :
      (s : Sys E) (buf : List ℕ) (now : ℕ)
      → (on_pong E s buf now).tun.state ≡ connected
      → s.tun.state ≡ connected
  unfolding on_pong begin_auth
  on_pong-state s buf now h = ground (arith, h)

  on_chal-SameState : (s : Sys E) (buf : List ℕ) → SameState s (on_chal E s buf)
  unfolding on_chal start_session
  on_chal-SameState s buf = ground arith

  on_reset-state :
      (s : Sys E) (buf : List ℕ) (from : Address) (now : ℕ)
      → (on_reset E s buf from now).tun.state ≡ connected
      → s.tun.state ≡ connected
  unfolding on_reset accept_reset begin_auth
  on_reset-state s buf from now h = ground (arith, h)

  on_resp-state :
      (s : Sys E) (buf : List ℕ) (now : ℕ)
      → (on_resp E s buf now).tun.state ≡ connected
      → (s.tun.state ≡ connected)
        ⊎ (s.tun.state ≡ auth)
          × (const_memcmp
                (response_of E s.tun.config.psk s.tun.r_remote s.tun.r_local)
                (slice buf 4 32)
                32
              ≡ false)
  unfolding on_resp
  on_resp-state s buf now h = ground (arith, h)

  -- A packet leaves the tunnel connected only if it was connected before, or if it was
  -- authenticating and the packet is a RESP whose 32 bytes are the MAC, under the key that is shared
  -- in advance, of the peer's nonce, our nonce and the text of the challenge.
  pub on_packet-connected :
      (s : Sys E) (buf : List ℕ) (from : Address) (now : ℕ)
      → (on_packet E s buf from now).tun.state ≡ connected
      → (s.tun.state ≡ connected)
        ⊎ (s.tun.state ≡ auth)
          × (memcmp_eq 4 buf resp_magic ≡ true)
          × (const_memcmp
                (response_of E s.tun.config.psk s.tun.r_remote s.tun.r_local)
                (slice buf 4 32)
                32
              ≡ false)
  unfolding on_packet
  on_packet-connected s buf from now h = branches h
    where
      After : Sys E → Type 0
      After t =
          t.tun.state ≡ connected
          → (s.tun.state ≡ connected)
            ⊎ (s.tun.state ≡ auth)
              × (memcmp_eq 4 buf resp_magic ≡ true)
              × (const_memcmp (response_of E s.tun.config.psk s.tun.r_remote s.tun.r_local)
                    (slice buf 4 32) 32
                  ≡ false)

      kept : (t : Sys E) → SameState s t → After t
      kept t e k = inl (sym e ∙ k)

      answered : memcmp_eq 4 buf resp_magic ≡ true → After (on_resp E s buf now)
      answered magic k = elim (on_resp-state s buf now k) [
        | inl before ↦ inl before
        | inr (before, mac) ↦ inr (before, magic, mac)
      ]

      encrypted : After (on_encrypted E s buf from now)
      encrypted = kept (on_encrypted E s buf from now) (on_encrypted-SameState s buf from now)

      branches : After (on_packet E s buf from now)
      branches =
          by_cases After (length buf == 0) (λ _. kept s refl)
            (by_cases After (ltb (length buf) 4) (λ _. encrypted)
              (by_cases After (memcmp_eq 4 buf ping_magic)
                (λ _ k. inl (on_ping-state s buf from now k))
                (by_cases After (memcmp_eq 4 buf pong_magic)
                  (λ _ k. inl (on_pong-state s buf now k))
                  (by_cases After (memcmp_eq 4 buf chal_magic)
                    (λ _. kept (on_chal E s buf) (on_chal-SameState s buf))
                    (by_cases After (memcmp_eq 4 buf resp_magic) answered (
                      by_cases After (memcmp_eq 4 buf reset_magic)
                        (λ _ k. inl (on_reset-state s buf from now k)) encrypted))))))
