-- ===== src/Socks5/Request.antt =====
-- The round trip of a request: what a client encodes is what the parser finds.
use bi_tun.Base.{
  ℕ, ◌/◌, ◌%◌, ◌<◌, ◌≡◌, refl, ◌∙◌, ap, arith, Option, none, some, List, [], ◌∷◌, replicate, bit_or,
  or-fields, u16, ◌<<<◌,
}
use bi_tun.Socks5.{
  Context, Turn, resolved, need_more, req_header, req_addr_body, req_port, connecting,
  on_req_header, on_req_addr_body, on_req_port, dispatch, handle_from, socks5_handle_input,
}
use bi_tun.Socks5.Stream.{}

-- A context that awaits a request header; the header array holds anything.
abbrev pub ready : Context → ℕ → ℕ → ℕ → ℕ → Context
ready c h0 h1 h2 h3 = record c {
  state = req_header;
  req_hdr_idx = 0;
  req_hdr = h0 ∷ h1 ∷ h2 ∷ h3 ∷ [];
  ipv4 = replicate 4 0;
  ipv6 = replicate 16 0;
}

-- RFC 1928: version, command CONNECT, reserved, address type.
abbrev pub header : ℕ → ℕ → List ℕ → List ℕ
header rsv atyp rest = 0x05 ∷ 0x01 ∷ rsv ∷ atyp ∷ rest

-- A port in network byte order.
abbrev pub port_bytes : ℕ → List ℕ
port_bytes p = p / 256 ∷ p % 256 ∷ []

port_joined :
    (p : ℕ) → p < 65536 → u16 (bit_or (u16 (bit_or (0 <<< 8) (p / 256)) <<< 8) (p % 256)) ≡ p
port_joined p h = ground (arith, or-fields 8 0 (p / 256), or-fields 8 (p / 256) (p % 256))

abbrev at_port : Context → Context
at_port c = record c { port = 0; port_idx = 0; state = req_port }

module _ (malloc : ℕ → Option (List ℕ)) where
  port-resolved :
      (c : Context) (r : List ℕ) (p : ℕ)
      → p < 65536
      → handle_from malloc (at_port c) r (port_bytes p) ≡ record {
        ctx = record c { port = p; port_idx = 2; state = connecting };
        resp = r;
        ret = some resolved;
      }
  unfolding handle_from dispatch on_req_port
  port-resolved c r p h =
      ap
        (λ q. record {
          ctx = record c { port = q; port_idx = 2; state = connecting };
          resp = r;
          ret = some resolved;
        })
        (port_joined p h)

  abbrev ipv4_found : Context → ℕ → ℕ → ℕ → ℕ → ℕ → Context
  ipv4_found c rsv a0 a1 a2 a3 = record c {
    req_hdr = 0x05 ∷ 0x01 ∷ rsv ∷ 0x01 ∷ [];
    req_hdr_idx = 4;
    addr_type = 1;
    addr_len = 4;
    addr_idx = 4;
    ipv4 = a0 ∷ a1 ∷ a2 ∷ a3 ∷ [];
    ipv6 = replicate 16 0;
  }

  ipv4_read :
      (c : Context) (r : List ℕ) (h0 h1 h2 h3 rsv a0 a1 a2 a3 : ℕ) (rest : List ℕ)
      → handle_from malloc (ready c h0 h1 h2 h3) r (header rsv 0x01 (a0 ∷ a1 ∷ a2 ∷ a3 ∷ rest))
        ≡ handle_from malloc (at_port (ipv4_found c rsv a0 a1 a2 a3)) r rest
  unfolding handle_from dispatch on_req_header on_req_addr_body
  ipv4_read c r h0 h1 h2 h3 rsv a0 a1 a2 a3 rest = refl

  -- The context among the bytes of a domain name of `len` bytes, `idx` of them read.
  abbrev naming : Context → List ℕ → ℕ → ℕ → Context
  naming c d idx len = record c {
    state = req_addr_body;
    addr_type = 3;
    addr_len = len;
    addr_idx = idx;
    domain = some d;
  }

  finish :
      (c d : Context) (r xs : List ℕ) (p : ℕ)
      → p < 65536
      → handle_from malloc c [] xs ≡ handle_from malloc (at_port d) [] (port_bytes p)
      → socks5_handle_input malloc c xs
        ≡ (record d { port = p; port_idx = 2; state = connecting }, [], resolved)
  unfolding socks5_handle_input
  finish c d r xs p h e =
      ap (λ (t : Turn). (t.ctx, t.resp, elim t.ret [ none ↦ need_more | some o ↦ o ]))
        (e ∙ port-resolved d [] p h)

  -- A CONNECT request for an IPv4 address and a port is resolved to them, with no reply yet.
  pub request_ipv4 :
      (c : Context) (h0 h1 h2 h3 rsv a0 a1 a2 a3 p : ℕ)
      → p < 65536
      → let (d, resp, out) =
          socks5_handle_input malloc
            (ready c h0 h1 h2 h3)
            (header rsv 0x01 (a0 ∷ a1 ∷ a2 ∷ a3 ∷ port_bytes p)) in
        (out ≡ resolved)
        × (resp ≡ [])
        × (d.state ≡ connecting)
        × (d.addr_type ≡ 1)
        × (d.ipv4 ≡ a0 ∷ a1 ∷ a2 ∷ a3 ∷ [])
        × (d.port ≡ p)
  request_ipv4 c h0 h1 h2 h3 rsv a0 a1 a2 a3 p h =
      rw
        (finish (ready c h0 h1 h2 h3) (ipv4_found c rsv a0 a1 a2 a3) []
          (header rsv 0x01 (a0 ∷ a1 ∷ a2 ∷ a3 ∷ port_bytes p)) p h
          (ipv4_read c [] h0 h1 h2 h3 rsv a0 a1 a2 a3 (port_bytes p)))
        (refl, refl, refl, refl, refl, refl)

  abbrev domain_asked : Context → ℕ → Context
  domain_asked c rsv = record c {
    req_hdr = 0x05 ∷ 0x01 ∷ rsv ∷ 0x03 ∷ [];
    req_hdr_idx = 4;
    ipv4 = replicate 4 0;
    ipv6 = replicate 16 0;
  }
