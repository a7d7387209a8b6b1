-- ===== src/Session.antt =====
-- The session key of src/encrypt.c, and the HKDF of src/linux/bitun_osal.c it is made with.
-- HMAC-SHA256 is a parameter.
pub mod Agreement
mod Tests
use bi_tun.Base.{
  ℕ, zero, suc, ◌+◌, ◌-◌, ◌*◌, Bool, true, false, Option, none, some, List, [], ◌∷◌, ◌++◌, length,
  take, ltb, leb, ◌==◌, if◌then◌else◌, u8, replicate, memcmp_gt,
}

-- "BiTun Ephemeral Key"
abbrev pub ephemeral_info : List ℕ
ephemeral_info =
    66 ∷ 105 ∷ 84 ∷ 117 ∷ 110 ∷ 32 ∷ 69 ∷ 112 ∷ 104 ∷ 101 ∷ 109 ∷ 101 ∷ 114 ∷ 97 ∷ 108 ∷ 32 ∷ 75
    ∷ 101 ∷ 121 ∷ []

module _ (hmac_sha256 : List ℕ → List ℕ → List ℕ) where
  -- The expansion loop with `missing` bytes to go, on `fuel` rounds at most; `t` is the last block.
  unfoldable pub expand : ℕ → List ℕ → List ℕ → ℕ → List ℕ → ℕ → List ℕ
  expand zero prk info counter t missing = []
  expand (suc fuel) prk info counter t missing =
      let block = hmac_sha256 prk (t ++ (info ++ (counter ∷ []))) in
      let rest = expand fuel prk info (u8 (counter + 1)) block (missing - 32) in
      if missing == 0 then [] else take (if ltb missing 32 then missing else 32) block ++ rest

  -- `none` is -1. As many rounds as there are bytes are enough: each of them gives one at least.
  unfoldable pub hkdf_sha256 : List ℕ → List ℕ → List ℕ → ℕ → Option (List ℕ)
  unfolding expand
  hkdf_sha256 salt ikm info okm_len =
      let actual_salt = if length salt == 0 then replicate 32 0 else salt in
      let prk = hmac_sha256 actual_salt ikm in
      if ltb (255 * 32) okm_len then none else some (expand okm_len prk info 1 [] okm_len)

  -- The salt of `derive_session_key`: the two nonces, the greater one first.
  unfoldable pub session_salt : List ℕ → List ℕ → List ℕ
  session_salt r_init r_resp =
      if memcmp_gt 32 r_init r_resp
      then take 32 r_init ++ take 32 r_resp
      else take 32 r_resp ++ take 32 r_init

  unfoldable pub derive_session_key : List ℕ → List ℕ → List ℕ → Option (List ℕ)
  unfolding session_salt hkdf_sha256
  derive_session_key psk r_init r_resp =
      hkdf_sha256 (session_salt r_init r_resp) psk ephemeral_info 32
