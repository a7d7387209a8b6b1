-- ===== src/Session/Tests.antt =====
-- The key agreement with a toy MAC of 32 bytes.
use bi_tun.Base.{
  ℕ, ◌*◌, ◌≡◌, refl, none, some, List, [], ◌∷◌, length, replicate, length-replicate, u8, ltb,
  if◌then◌else◌,
}
use bi_tun.Session.{derive_session_key, hkdf_sha256}
use bi_tun.Session.Agreement.{map_length, derive_session_key-sym, hkdf-length}

abbrev toy_mac : List ℕ → List ℕ → List ℕ
toy_mac key text = replicate 32 (u8 (length text))

derive_session_key-sym_example :
    derive_session_key toy_mac (7 ∷ []) (replicate 32 1) (replicate 32 2)
    ≡ derive_session_key toy_mac (7 ∷ []) (replicate 32 2) (replicate 32 1)
derive_session_key-sym_example =
    derive_session_key-sym toy_mac (7 ∷ []) (replicate 32 1) (replicate 32 2) refl refl

hkdf-length_example :
    map_length (hkdf_sha256 toy_mac (1 ∷ []) (2 ∷ []) (3 ∷ []) 80)
    ≡ (if ltb (255 * 32) 80 then none else some 80)
hkdf-length_example =
    hkdf-length toy_mac (λ key text. length-replicate {A = ℕ} 32 (u8 (length text))) (1 ∷ [])
      (2 ∷ []) (3 ∷ []) 80
