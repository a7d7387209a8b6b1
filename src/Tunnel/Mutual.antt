-- ===== src/Tunnel/Mutual.antt =====
-- The handshake of src/tunnel.c between two ends that authenticate each other at the same time.
use bi_tun.Base.{
  ℕ, zero, suc, ◌≡◌, ◌≢◌, refl, sym, ap, ap₂, ◌∙◌, arith, Bool, true, false, not, ◌||◌, Option,
  none, some, List, [], ◌++◌, length, take, drop, slice, if◌then◌else◌, memcmp_eq, memcmp_gt,
  take-length_append, drop-length_append, length-append, take_all, le→ltb-false, Bool-cases, inl,
  inr,
}
use bi_tun.Session.{derive_session_key, hkdf_sha256}
use bi_tun.Session.Agreement.{derive_session_key-sym, memcmp_gt-asym, memcmp_gt-eq}
use bi_tun.Tunnel.Types.{Tunnel, auth, connected}
use bi_tun.Tunnel.Host.{Host}
use bi_tun.Tunnel.Send.{Sys}
use bi_tun.Tunnel.Handshake.{
  chal_magic, resp_magic, const_memcmp, is_connected, is_auth, challenge_packet, response_of, reply,
  start_session, on_chal, on_resp,
}
use bi_tun.Tunnel.Compare.{const_memcmp_lem}

memcmp_eq-same : (n : ℕ) (a : List ℕ) → memcmp_eq n a a ≡ true
memcmp_eq-same zero a = refl
memcmp_eq-same (suc n) a = let rest = memcmp_eq-same n (drop 1 a) in ground (arith, rest)

const_memcmp-same : (a b : List ℕ) (n : ℕ) → b ≡ a → const_memcmp a b n ≡ false
const_memcmp-same a b n e =
    ap (λ c. const_memcmp a c n) e ∙ const_memcmp_lem a a n ∙ ap not (memcmp_eq-same n a)

take-front : (n : ℕ) (xs ys : List ℕ) → length xs ≡ n → take n (xs ++ ys) ≡ xs
take-front n xs ys h = ap (λ k. take k (xs ++ ys)) (sym h) ∙ take-length_append xs ys

drop-front : (n : ℕ) (xs ys : List ℕ) → length xs ≡ n → drop n (xs ++ ys) ≡ ys
drop-front n xs ys h = ap (λ k. drop k (xs ++ ys)) (sym h) ∙ drop-length_append xs ys

answers {ℓ} :
    {A B : Type ℓ} (x : B) (f : A → B) (t u : A) {a b c : Bool}
    → a ≡ false
    → b ≡ false
    → c ≡ false
    → (if a || b then x else f (if c then t else u)) ≡ f u
answers x f t u ha hb hc = rw (ha, hb, hc) refl

connects {ℓ} :
    {A : Type ℓ} (x y : A) {a b c : Bool}
    → a ≡ false
    → b ≡ false
    → c ≡ true
    → (if a || b then x else if c then y else x) ≡ y
connects x y ha hb hc = rw (ha, hb, hc) refl

opposite :
    (a b : List ℕ)
    → length a ≡ 32
    → length b ≡ 32
    → a ≢ b
    → memcmp_gt 32 b a ≡ not (memcmp_gt 32 a b)
opposite a b ha hb differ = elim (Bool-cases (memcmp_gt 32 a b)) [
  | inl more ↦ memcmp_gt-asym 32 a b more ∙ sym (ap not more)
  | inr not_more ↦ elim (Bool-cases (memcmp_gt 32 b a)) [
    | inl less ↦ less ∙ sym (ap not not_more)
    | inr same ↦ absurd (differ (memcmp_gt-eq 32 a b ha hb not_more same))
  ]
]

module _ (E : Host) where
  open E use {hmac_sha256, sendto}

  -- What an end that is authenticating does with a salt that it was told.
  abbrev told : Sys E → List ℕ → Sys E
  told s salt = record {
    tun = record (s.tun) { r_remote = salt };
    world =
        sendto (resp_magic ++ response_of E s.tun.config.psk s.tun.r_local salt) s.tun.peer_addr
          s.world;
  }

  abbrev session_of : Sys E → ℕ → Sys E
  session_of s now = record s {
    tun = record (start_session E s.tun) {
      state = connected;
      last_recv_time = now;
      last_keepalive_time = now;
    };
  }

  -- The response that an end has sent, of what it holds.
  abbrev pub answer_of : Sys E → List ℕ
  answer_of s = resp_magic ++ response_of E s.tun.config.psk s.tun.r_local s.tun.r_remote

  module _ (full : (key text : List ℕ) → length (hmac_sha256 key text) ≡ 32) where
    on_chal-told :
        (s : Sys E) (salt : List ℕ)
        → s.tun.state ≡ auth
        → length salt ≡ 32
        → on_chal E s (challenge_packet E s.tun.config.psk salt) ≡ told s salt
    unfolding on_chal
    on_chal-told s salt state size =
        let psk = s.tun.config.psk in
        let mac = hmac_sha256 psk (chal_magic ++ salt) in
        let buf = challenge_packet E psk salt in
        let read : slice buf 4 32 ≡ salt = take-front 32 salt mac size in
        let signed : slice buf 36 32 ≡ hmac_sha256 psk (chal_magic ++ slice buf 4 32) =
          ap (take 32) (drop-front 32 salt mac size)
          ∙ take_all 32 mac (full psk (chal_magic ++ salt))
          ∙ ap (λ x. hmac_sha256 psk (chal_magic ++ x)) (sym read) in
        let heard = record (s.tun) { r_remote = slice buf 4 32 } in
        answers s
          (λ (tun : Tunnel (Host.Kcp E)).
            reply E (record s { tun = tun })
              (resp_magic ++ response_of E tun.config.psk tun.r_local tun.r_remote))
          (start_session E heard) heard
          (le→ltb-false (length buf) 68
            (omega (arith, length-append salt mac, size, full psk (chal_magic ++ salt))))
          (const_memcmp-same (hmac_sha256 psk (chal_magic ++ slice buf 4 32)) (slice buf 36 32) 32
            signed)
          (ap is_connected state)
        ∙ ap (told s) read

    on_resp-session_of :
        (s : Sys E) (now : ℕ)
        → s.tun.state ≡ auth
        → on_resp E s
            (resp_magic ++ response_of E s.tun.config.psk s.tun.r_remote s.tun.r_local)
            now
          ≡ session_of s now
    unfolding on_resp
    on_resp-session_of s now state =
        let mac = response_of E s.tun.config.psk s.tun.r_remote s.tun.r_local in
        let size : length mac ≡ 32 = full s.tun.config.psk _ in
        connects s (session_of s now)
          (le→ltb-false (length (resp_magic ++ mac)) 36 (omega (arith, size)))
          (const_memcmp-same mac (take 32 mac) 32 (take_all 32 mac size)) (ap is_auth state)

    -- An end that gets the other's challenge.
    heard :
        (a b : Sys E)
        → a.tun.state ≡ auth
        → b.tun.config.psk ≡ a.tun.config.psk
        → length b.tun.r_local ≡ 32
        → on_chal E a (challenge_packet E b.tun.config.psk b.tun.r_local) ≡ told a b.tun.r_local
    heard a b at_a psk size_b =
        ap (λ k. on_chal E a (challenge_packet E k b.tun.r_local)) psk
        ∙ on_chal-told a b.tun.r_local at_a size_b

    sent :
        (a b : Sys E)
        → a.tun.state ≡ auth
        → b.tun.config.psk ≡ a.tun.config.psk
        → length b.tun.r_local ≡ 32
        → let a1 = on_chal E a (challenge_packet E b.tun.config.psk b.tun.r_local) in
          a1.world ≡ sendto (answer_of a1) a.tun.peer_addr a.world
    sent a b at_a psk size_b =
        let e = heard a b at_a psk size_b in
        ap (λ s. s.world) e ∙ sym (ap (λ s. sendto (answer_of s) a.tun.peer_addr a.world) e)

    joined :
        (a b : Sys E) (now : ℕ)
        → a.tun.state ≡ auth
        → b.tun.state ≡ auth
        → b.tun.config.psk ≡ a.tun.config.psk
        → length a.tun.r_local ≡ 32
        → length b.tun.r_local ≡ 32
        → let a1 = on_chal E a (challenge_packet E b.tun.config.psk b.tun.r_local) in
          let b1 = on_chal E b (challenge_packet E a.tun.config.psk a.tun.r_local) in
          on_resp E a1 (answer_of b1) now ≡ session_of (told a b.tun.r_local) now
    joined a b now at_a at_b psk size_a size_b =
        ap₂ (λ x y. on_resp E x (answer_of y) now) (heard a b at_a psk size_b)
          (heard b a at_b (sym psk) size_a)
        ∙ ap
            (λ k.
              on_resp E (told a b.tun.r_local)
                (resp_magic ++ response_of E k b.tun.r_local a.tun.r_local) now)
            psk
        ∙ on_resp-session_of (told a b.tun.r_local) now at_a

    same_key :
        (a b : Sys E) (now now' : ℕ)
        → b.tun.config.psk ≡ a.tun.config.psk
        → length a.tun.r_local ≡ 32
        → length b.tun.r_local ≡ 32
        → (session_of (told a b.tun.r_local) now).tun.session_key
          ≡ (session_of (told b a.tun.r_local) now').tun.session_key
    unfolding start_session derive_session_key hkdf_sha256
    same_key a b now now' psk size_a size_b =
        ap (λ (o : Option (List ℕ)). elim o [ none ↦ [] | some k ↦ k ])
          (derive_session_key-sym hmac_sha256 a.tun.config.psk a.tun.r_local b.tun.r_local size_a
              size_b
            ∙ ap (λ k. derive_session_key hmac_sha256 k b.tun.r_local a.tun.r_local) (sym psk))

    session_of-roles :
        (a b : Sys E) (now now' : ℕ)
        → length a.tun.r_local ≡ 32
        → length b.tun.r_local ≡ 32
        → a.tun.r_local ≢ b.tun.r_local
        → (session_of (told b a.tun.r_local) now').tun.is_odd_id_generator
          ≡ not (session_of (told a b.tun.r_local) now).tun.is_odd_id_generator
    unfolding start_session
    session_of-roles a b now now' size_a size_b differ =
        opposite a.tun.r_local b.tun.r_local size_a size_b differ

    -- The handshake agrees: if the MAC has 32 bytes, then two ends with one key, both authenticating,
    -- with different salts of 32 bytes, that each get the other's challenge and then the response
    -- that the other sent to theirs, are both connected, with the same session key, and exactly one
    -- of them gives odd ids to its channels.
    pub handshake_agrees :
        (a b : Sys E) (now now' : ℕ)
        → a.tun.state ≡ auth
        → b.tun.state ≡ auth
        → b.tun.config.psk ≡ a.tun.config.psk
        → length a.tun.r_local ≡ 32
        → length b.tun.r_local ≡ 32
        → a.tun.r_local ≢ b.tun.r_local
        → let a1 = on_chal E a (challenge_packet E b.tun.config.psk b.tun.r_local) in
          let b1 = on_chal E b (challenge_packet E a.tun.config.psk a.tun.r_local) in
          let a2 = on_resp E a1 (answer_of b1) now in
          let b2 = on_resp E b1 (answer_of a1) now' in
          (a1.world ≡ sendto (answer_of a1) a.tun.peer_addr a.world)
          × (b1.world ≡ sendto (answer_of b1) b.tun.peer_addr b.world)
          × (a2.tun.state ≡ connected)
          × (b2.tun.state ≡ connected)
          × (a2.tun.session_key ≡ b2.tun.session_key)
          × (b2.tun.is_odd_id_generator ≡ not a2.tun.is_odd_id_generator)
    handshake_agrees a b now now' at_a at_b psk size_a size_b differ =
        let ra = joined a b now at_a at_b psk size_a size_b in
        let rb = joined b a now' at_b at_a (sym psk) size_b size_a in
        (
          sent a b at_a psk size_b,
          sent b a at_b (sym psk) size_a,
          ap (λ s. s.tun.state) ra,
          ap (λ s. s.tun.state) rb,
          ap (λ s. s.tun.session_key) ra
              ∙ same_key a b now now' psk size_a size_b
              ∙ sym (ap (λ s. s.tun.session_key) rb),
          ap (λ s. s.tun.is_odd_id_generator) rb
              ∙ session_of-roles a b now now' size_a size_b differ
              ∙ sym (ap (λ s. not s.tun.is_odd_id_generator) ra),
        )
