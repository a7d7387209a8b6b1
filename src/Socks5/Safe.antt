-- ===== src/Socks5/Safe.antt =====
-- No store of the parser is out of bounds, and the parser's state stays well formed.
use bi_tun.Base.{
  ℕ, ◌+◌, ◌<◌, ◌≡◌, ◌≢◌, refl, arith, Option, none, some, List, [], ◌∷◌, length, length-set, set,
  ap, inl, inr, Option-cases,
}
use bi_tun.Socks5.{
  SocksState, init, methods, req_header, req_addr_len, req_addr_body, req_port, connecting,
  forwarding, error, Context, Turn, fault, on_init, on_methods, on_req_header, on_req_addr_len,
  on_req_addr_body, on_req_port, dispatch, handle_from, socks5_handle_input, socks5_init,
}
use bi_tun.Socks5.Stream.{handle_from-next, handle_from-stop}

-- The bytes that the domain buffer holds.
abbrev pub room : Option (List ℕ) → ℕ
room none = 0
room (some d) = length d

-- `all_bytes buf`: every element is below 256.
abbrev pub IsBytes : List ℕ → Type 0
IsBytes [] = Unit {0}
IsBytes (b ∷ rest) = (b < 256) × IsBytes rest

-- The arrays have their declared sizes, and in each state the next store falls inside its array.
pub record IsValid (c : Context) : Type 0 where
  pub ipv4_size : length c.ipv4 ≡ 4
  pub ipv6_size : length c.ipv6 ≡ 16
  pub hdr_size : length c.req_hdr ≡ 4
  pub hdr_room : c.state ≡ req_header → c.req_hdr_idx < 4
  pub len_typed : c.state ≡ req_addr_len → c.addr_type ≡ 3
  pub body_room : c.state ≡ req_addr_body → (c.addr_idx < c.addr_len) × (c.addr_len < 256)
  pub body_ipv4 : c.state ≡ req_addr_body → c.addr_type ≡ 1 → c.addr_len ≡ 4
  pub body_domain : c.state ≡ req_addr_body → c.addr_type ≡ 3 → room c.domain ≡ c.addr_len + 1
  pub body_ipv6 : c.state ≡ req_addr_body → c.addr_type ≡ 4 → c.addr_len ≡ 16

-- What `malloc` promises: a buffer of the size that was asked for, if any.
abbrev pub Allocates : (ℕ → Option (List ℕ)) → Type 0
Allocates malloc = (n : ℕ) (d : List ℕ) → malloc n ≡ some d → length d ≡ n

abbrev IsSafe : Turn → Type 0
IsSafe t = IsValid t.ctx × (t.ret ≢ some fault)

init-IsSafe :
    (c : Context) (r : List ℕ) (b : ℕ) → c.state ≡ init → IsValid c → IsSafe (on_init c r b)
unfolding on_init
init-IsSafe c r b e v = ground arith

methods-IsSafe :
    (c : Context) (r : List ℕ) (b : ℕ) → c.state ≡ methods → IsValid c → IsSafe (on_methods c r b)
unfolding on_methods
methods-IsSafe c r b e v = ground arith

header-IsSafe :
    (c : Context) (r : List ℕ) (b : ℕ)
    → c.state ≡ req_header
    → IsValid c
    → IsSafe (on_req_header c r b)
unfolding on_req_header
header-IsSafe c r b e v = ground (arith, length-set c.req_hdr c.req_hdr_idx b)

port-IsSafe :
    (c : Context) (r : List ℕ) (b : ℕ) → c.state ≡ req_port → IsValid c → IsSafe (on_req_port c r b)
unfolding on_req_port
port-IsSafe c r b e v = ground arith

body-IsSafe :
    (c : Context) (r : List ℕ) (b : ℕ)
    → c.state ≡ req_addr_body
    → IsValid c
    → IsSafe (on_req_addr_body c r b)
unfolding on_req_addr_body
body-IsSafe c r b e v = elim (Option-cases c.domain) [
  | inl no_buffer ↦
      ground (arith, no_buffer, length-set c.ipv4 c.addr_idx b, length-set c.ipv6 c.addr_idx b)
  | inr (d, buffer) ↦ ground (
    arith,
    buffer,
    ap room buffer,
    length-set c.ipv4 c.addr_idx b,
    length-set c.ipv6 c.addr_idx b,
    length-set d c.addr_idx b,
    length-set (set d c.addr_idx b) c.addr_len 0,
  )
]

len-IsSafe :
    (malloc : ℕ → Option (List ℕ)) (c : Context) (r : List ℕ) (b : ℕ)
    → Allocates malloc
    → b < 256
    → c.state ≡ req_addr_len
    → IsValid c
    → IsSafe (on_req_addr_len malloc c r b)
unfolding on_req_addr_len
len-IsSafe malloc c r b honest small e v = elim (Option-cases (malloc (b + 1))) [
  | inl full ↦ ground (arith, full)
  | inr (d, got) ↦ ground (arith, got, honest (b + 1) d got)
]

module _ (malloc : ℕ → Option (List ℕ)) (honest : Allocates malloc) where
  dispatch-IsSafe :
      (s : SocksState) (c : Context) (r : List ℕ) (b : ℕ)
      → b < 256
      → c.state ≡ s
      → IsValid c
      → IsSafe (dispatch malloc s c r b)
  unfolding dispatch
  dispatch-IsSafe init c r b small e v = init-IsSafe c r b e v
  dispatch-IsSafe methods c r b small e v = methods-IsSafe c r b e v
  dispatch-IsSafe req_header c r b small e v = header-IsSafe c r b e v
  dispatch-IsSafe req_addr_len c r b small e v = len-IsSafe malloc c r b honest small e v
  dispatch-IsSafe req_addr_body c r b small e v = body-IsSafe c r b e v
  dispatch-IsSafe req_port c r b small e v = port-IsSafe c r b e v
  dispatch-IsSafe connecting c r b small e v = (v, λ h. cc)
  dispatch-IsSafe forwarding c r b small e v = (v, λ h. cc)
  dispatch-IsSafe error c r b small e v = (v, λ h. cc)

  handle_from-IsSafe :
      (c : Context) (r buf : List ℕ) → IsBytes buf → IsValid c → IsSafe (handle_from malloc c r buf)
  handle_from-IsSafe c r [] bytes v = unfold handle_from in (v, λ h. cc)
  handle_from-IsSafe c r (b ∷ rest) bytes v =
      let here = dispatch-IsSafe c.state c r b bytes.0 refl v in
      elim (Option-cases (dispatch malloc c.state c r b).ret) [
        | inl goes_on ↦ rw (handle_from-next malloc c r b rest goes_on) (
            handle_from-IsSafe (dispatch malloc c.state c r b).ctx
              (dispatch malloc c.state c r b).resp rest bytes.1 here.0)
        | inr (o, stops) ↦ rw (handle_from-stop malloc c r b rest stops) here
      ]

  -- From a well-formed context a call on any bytes leaves a well-formed context and makes no store
  -- out of bounds or through the null pointer.
  pub handle_input-IsValid :
      (c : Context) (buf : List ℕ)
      → IsBytes buf
      → IsValid c
      → IsValid (socks5_handle_input malloc c buf).0
        × ((socks5_handle_input malloc c buf).2 ≢ fault)
  unfolding socks5_handle_input
  handle_input-IsValid c buf bytes v =
      let t = handle_from-IsSafe c [] buf bytes v in (t.0, ground (arith, t.1))

-- A fresh context is well formed.
pub socks5_init-IsValid : (c : Context) → length c.req_hdr ≡ 4 → IsValid (socks5_init c)
unfolding socks5_init
socks5_init-IsValid c h = ground arith
