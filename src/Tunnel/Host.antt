-- ===== src/Tunnel/Host.antt =====
-- What the tunnel calls: the operating system (src/bitun_osal.h), the cryptographic primitives and
-- the KCP library (src/ikcp.h, a copy of another project's). `World` is the state of all that is
-- outside the process; a call that reads or changes it takes it and returns it.
use bi_tun.Base.{ℕ, Bool, Option, List}
use bi_tun.Tunnel.Types.{Address}

pub record Host : Type 1 where
  pub World : Type 0
  pub Kcp : Type 0
  pub real_ms : World → ℕ × World
  pub random_bytes : ℕ → World → List ℕ × World
  pub random_u32 : World → ℕ × World
  -- the bytes that the compiler leaves between the fields of a handshake packet
  pub padding : List ℕ
  -- `none` is NULL; a buffer comes with whatever bytes it holds
  pub malloc : ℕ → Option (List ℕ)
  pub hmac_sha256 : List ℕ → List ℕ → List ℕ
  pub aead_encrypt : List ℕ → List ℕ → List ℕ → Option (List ℕ × List ℕ)
  pub aead_decrypt : List ℕ → List ℕ → List ℕ → List ℕ → Option (List ℕ)
  pub sendto : List ℕ → Address → World → World
  -- sockets: `none` is a negative result
  pub socket_create : World → Option ℕ × World
  pub set_nonblocking : ℕ → World → World
  pub connect_started : ℕ → Address → World → Bool × World
  pub send : ℕ → List ℕ → World → Option ℕ × World
  pub close : ℕ → World → World
  pub poll_add_in : ℕ → World → World
  pub poll_add_in_out : ℕ → World → World
  pub poll_mod_in : ℕ → World → World
  pub poll_del : ℕ → World → World
  pub accept : World → Option ℕ × World
  -- `none` for a negative result, no bytes for 0
  pub recv : ℕ → World → Option (List ℕ) × World
  -- whether `getsockopt` fails or reports a pending error
  pub connect_failed : ℕ → World → Bool × World
  pub dns_resolve_async : List ℕ → ℕ → World → World
  -- KCP
  pub ikcp_create : ℕ → Kcp
  pub ikcp_wndsize : Kcp → ℕ → ℕ → Kcp
  pub ikcp_setmtu : Kcp → ℕ → Kcp
  pub ikcp_nodelay : Kcp → ℕ → ℕ → ℕ → ℕ → Kcp
  pub ikcp_send : Kcp → List ℕ → Kcp
  pub ikcp_input : Kcp → List ℕ → Kcp
  pub ikcp_waitsnd : Kcp → ℕ
  -- a message, if one is complete
  pub ikcp_recv : Kcp → Option (List ℕ) × Kcp
  -- the packets that it passes to the output callback, in order
  pub ikcp_update : Kcp → ℕ → List (List ℕ) × Kcp
