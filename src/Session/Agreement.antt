-- ===== src/Session/Agreement.antt =====
-- Both ends derive one key, and the roles that they take from their nonces differ.
use bi_tun.Base.{
  ℕ, zero, suc, ◌+◌, ◌≡◌, refl, ap, ap₂, arith, true, false, Option, none, some, List, [], ◌∷◌,
  ◌++◌, length, take, drop, ltb, if◌then◌else◌, memcmp_gt, Bool-cases, ◌≤◌, ◌-◌, ◌*◌, length-append,
  replicate, length-take, inl, inr, u8, ◌==◌,
}
use bi_tun.Session.{session_salt, derive_session_key, hkdf_sha256, expand, ephemeral_info}

abbrev pub map_length : Option (List ℕ) → Option ℕ
map_length none = none
map_length (some bytes) = some (length bytes)

-- At most one of the two nonces is the greater.
pub memcmp_gt-asym : (n : ℕ) (a b : List ℕ) → memcmp_gt n a b ≡ true → memcmp_gt n b a ≡ false
memcmp_gt-asym zero a b h = ground (arith, h)
memcmp_gt-asym (suc n) a b h =
    let later = memcmp_gt-asym n (drop 1 a) (drop 1 b) in ground (arith, later, h)

memcmp_gt-heads :
    (n x y : ℕ) (a b : List ℕ)
    → memcmp_gt (suc n) (x ∷ a) (y ∷ b) ≡ false
    → memcmp_gt (suc n) (y ∷ b) (x ∷ a) ≡ false
    → (x ≡ y) × (memcmp_gt n a b ≡ false) × (memcmp_gt n b a ≡ false)
memcmp_gt-heads n x y a b h k = ground (arith, h, k)

-- If neither is, they are equal.
pub memcmp_gt-eq :
    (n : ℕ) (a b : List ℕ)
    → length a ≡ n
    → length b ≡ n
    → memcmp_gt n a b ≡ false
    → memcmp_gt n b a ≡ false
    → a ≡ b
memcmp_gt-eq zero [] [] ha hb h k = refl
memcmp_gt-eq zero [] (y ∷ b) ha hb h k = absurd (omega arith)
memcmp_gt-eq zero (x ∷ a) b ha hb h k = absurd (omega arith)
memcmp_gt-eq (suc n) [] b ha hb h k = absurd (omega arith)
memcmp_gt-eq (suc n) (x ∷ a) [] ha hb h k = absurd (omega arith)
memcmp_gt-eq (suc n) (x ∷ a) (y ∷ b) ha hb h k =
    let (e, h', k') = memcmp_gt-heads n x y a b h k in
    ap₂ ◌∷◌ e (memcmp_gt-eq n a b (omega arith) (omega arith) h' k')

module _ (hmac_sha256 : List ℕ → List ℕ → List ℕ) where
  salt-sym :
      (a b : List ℕ)
      → length a ≡ 32
      → length b ≡ 32
      → session_salt hmac_sha256 a b ≡ session_salt hmac_sha256 b a
  unfolding session_salt
  salt-sym a b ha hb = elim (Bool-cases (memcmp_gt 32 a b)) [
    | inl h ↦ rw (h, memcmp_gt-asym 32 a b h)
    | inr h ↦ elim (Bool-cases (memcmp_gt 32 b a)) [
      | inl k ↦ rw (h, k)
      | inr k ↦ rw (memcmp_gt-eq 32 a b ha hb h k)
    ]
  ]

  -- Two ends that hold the same key and have exchanged their nonces of 32 bytes derive one session
  -- key, whichever of the two nonces each of them passes first.
  pub derive_session_key-sym :
      (psk a b : List ℕ)
      → length a ≡ 32
      → length b ≡ 32
      → derive_session_key hmac_sha256 psk a b ≡ derive_session_key hmac_sha256 psk b a
  unfolding derive_session_key
  derive_session_key-sym psk a b ha hb =
      ap (λ salt. hkdf_sha256 hmac_sha256 salt psk ephemeral_info 32) (salt-sym a b ha hb)

  module _ (full : (key text : List ℕ) → length (hmac_sha256 key text) ≡ 32) where
    expand-length :
        (fuel : ℕ) (prk info : List ℕ) (counter : ℕ) (t : List ℕ) (missing : ℕ)
        → missing ≤ fuel
        → length (expand hmac_sha256 fuel prk info counter t missing) ≡ missing
    unfolding expand
    expand-length zero prk info counter t missing h = omega arith
    expand-length (suc fuel) prk info counter t missing h =
        let block = hmac_sha256 prk (t ++ (info ++ (counter ∷ []))) in
        let rest = expand hmac_sha256 fuel prk info (u8 (counter + 1)) block (missing - 32) in
        let rest_length =
          expand-length fuel prk info (u8 (counter + 1)) block (missing - 32) (omega arith) in
        let joined : (k : ℕ) → length (take k block ++ rest) ≡ length (take k block) + length rest =
          λ k. length-append (take k block) rest in
        ground (
          arith,
          rest_length,
          joined missing,
          joined 32,
          length-take missing block,
          length-take 32 block,
          full prk (t ++ (info ++ (counter ∷ []))),
        )

    -- If the MAC has 32 bytes, the loop of the HKDF ends with the number of bytes asked for, whenever
    -- that is at most 255 * 32, and with the result -1 above.
    pub hkdf-length :
        (salt ikm info : List ℕ) (okm_len : ℕ)
        → map_length (hkdf_sha256 hmac_sha256 salt ikm info okm_len)
          ≡ (if ltb (255 * 32) okm_len then none else some okm_len)
    unfolding hkdf_sha256
    hkdf-length salt ikm info okm_len =
        let actual_salt = if length salt == 0 then replicate 32 0 else salt in
        let whole =
          expand-length okm_len (hmac_sha256 actual_salt ikm) info 1 [] okm_len (omega arith) in
        ground (arith, ap some whole)
