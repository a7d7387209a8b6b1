-- ===== src/Tunnel/Wire.antt =====
-- Encrypted packets from one end to the other.
use bi_tun.Base.{ℕ, List, ◌++◌, be64}
use bi_tun.Tunnel.Types.{FecHeader}
use bi_tun.Tunnel.Host.{Host}
use bi_tun.Tunnel.Send.{nonce_of}

-- The header of a packet without parity.
abbrev pub bare : FecHeader
bare = record { group_id = 0; index = 0; n = 1; r = 0 }

module _ (E : Host) where
  open E use {aead_encrypt, aead_decrypt, sendto, ikcp_input}

  -- The packet that `encrypt_and_send_udp` makes of what the cipher returns.
  abbrev pub wire_packet : ℕ → List ℕ → List ℕ → List ℕ
  wire_packet seq tag ciphertext = be64 seq ++ (nonce_of seq ++ (tag ++ ciphertext))
