-- ===== src/Socks5.antt =====
-- The SOCKS5 stream parser of src/socks5.c. A C array is a list; a write that is out of range, or
-- through the null pointer, is the outcome `fault`. `malloc` is a parameter: `none` is NULL, and a
-- buffer comes with whatever bytes it holds.
pub mod Safe
pub mod Stream
pub mod Greeting
pub mod Request
mod Tests
use bi_tun.Base.{
  ℕ, ◌+◌, ◌*◌, ◌%◌, ◌^◌, bit_or, Bool, true, false, Option, none, some, List, [], ◌∷◌, length,
  replicate, ltb, ◌==◌, ◌!=◌, if◌then◌else◌, u8, u16, ◌<<<◌, set,
}

-- `socks5_state_t`
pub data SocksState : Type 0 where
  init methods req_header req_addr_len req_addr_body req_port connecting forwarding error :
      SocksState

-- `socks5_context_t`
pub record Context : Type 0 where
  pub state : SocksState
  pub methods_left : ℕ
  pub addr_type : ℕ
  pub addr_len : ℕ
  pub addr_idx : ℕ
  pub port : ℕ
  pub port_idx : ℕ
  pub domain : Option (List ℕ)
  pub ipv4 : List ℕ
  pub ipv6 : List ℕ
  pub req_hdr : List ℕ
  pub req_hdr_idx : ℕ
  pub method_idx : ℕ
  pub found_no_auth : Bool

-- What `socks5_handle_input` returns: 0, 1 or -1.
pub data Outcome : Type 0 where
  need_more resolved failed fault : Outcome

-- After a byte: the context, the response so far, and the return value if the code returns.
pub record Turn : Type 0 where
  pub ctx : Context
  pub resp : List ℕ
  pub ret : Option Outcome

-- The code does not touch `req_hdr` here.
unfoldable pub socks5_init : Context → Context
socks5_init ctx = record ctx {
  state = init;
  methods_left = 0;
  addr_type = 0;
  addr_len = 0;
  addr_idx = 0;
  port = 0;
  port_idx = 0;
  domain = none;
  ipv4 = replicate 4 0;
  ipv6 = replicate 16 0;
  req_hdr_idx = 0;
  method_idx = 0;
  found_no_auth = false;
}

unfoldable pub socks5_free : Context → Context
socks5_free ctx = record ctx { domain = none }

abbrev pub go_on : Context → List ℕ → Turn
go_on c r = record { ctx = c; resp = r; ret = none }

abbrev pub give : Context → List ℕ → Outcome → Turn
give c r o = record { ctx = c; resp = r; ret = some o }

abbrev pub give_error : Context → List ℕ → Turn
give_error c r = give (record c { state = error }) r failed

-- A store `a[i] = v`, and what goes on with the array.
abbrev pub store : Context → List ℕ → List ℕ → ℕ → ℕ → (List ℕ → Turn) → Turn
store c r a i v k = if ltb i (length a) then k (set a i v) else give c r fault

unfoldable pub on_init : Context → List ℕ → ℕ → Turn
on_init c r b = if b != 0x05 then give_error c r else go_on (record c { state = methods }) r

unfoldable pub on_methods : Context → List ℕ → ℕ → Turn
on_methods c r b =
    let first = record c { methods_left = b } in
    let seen = if b == 0x00 then record c { found_no_auth = true } else c in
    let counted = record seen { method_idx = u8 (c.method_idx + 1) } in
    if c.method_idx == 0
    then (if b == 0 then give_error first r else go_on (record first { method_idx = 1 }) r)
    else if ltb counted.methods_left counted.method_idx
    then (if counted.found_no_auth
        then go_on (record counted { state = req_header; req_hdr_idx = 0 }) (0x05 ∷ 0x00 ∷ [])
        else give_error counted (0x05 ∷ 0xff ∷ []))
    else go_on counted r

-- The ten bytes of a refusal, with its reply code.
abbrev pub refusal : ℕ → List ℕ
refusal code = 0x05 ∷ code ∷ 0x00 ∷ 0x01 ∷ 0 ∷ 0 ∷ 0 ∷ 0 ∷ 0 ∷ 0 ∷ []

abbrev pub at : List ℕ → ℕ → ℕ
at [] i = 0
at (x ∷ xs) i = elim i [ ℕ.zero ↦ x | ℕ.suc j ↦ at xs j ]

-- The four bytes of the request header are there.
unfoldable pub on_header_done : Context → List ℕ → Turn
on_header_done c r =
    let atyp = at c.req_hdr 3 in
    let typed = record c { addr_type = atyp } in
    if at c.req_hdr 0 != 0x05
    then give_error c r
    else if at c.req_hdr 1 != 0x01
    then give_error c (refusal 0x07)
    else if atyp == 0x01
    then go_on (record typed { addr_len = 4; addr_idx = 0; state = req_addr_body }) r
    else if atyp == 0x03
    then go_on (record typed { state = req_addr_len }) r
    else if atyp == 0x04
    then go_on (record typed { addr_len = 16; addr_idx = 0; state = req_addr_body }) r
    else give_error typed (refusal 0x08)

unfoldable pub on_req_header : Context → List ℕ → ℕ → Turn
unfolding on_header_done
on_req_header c r b = store c r c.req_hdr c.req_hdr_idx b λ hdr.
    let c' = record c { req_hdr = hdr; req_hdr_idx = u8 (c.req_hdr_idx + 1) } in
    if c'.req_hdr_idx == 4 then on_header_done c' r else go_on c' r

-- The part of `REQ_ADDR_BODY` after the byte was stored.
unfoldable pub on_body_stored : Context → List ℕ → Turn
on_body_stored c r =
    let next = record c { port = 0; port_idx = 0; state = req_port } in
    if c.addr_idx == c.addr_len
    then (if c.addr_type == 0x03
        then elim c.domain [
          | none ↦ give c r fault
          | some d ↦ store c r d c.addr_len 0 λ d'. go_on (record next { domain = some d' }) r
        ]
        else go_on next r)
    else go_on c r

unfoldable pub on_req_addr_body : Context → List ℕ → ℕ → Turn
unfolding on_body_stored
on_req_addr_body c r b =
    let moved = record c { addr_idx = u16 (c.addr_idx + 1) } in
    if c.addr_type == 0x01
    then store c r c.ipv4 c.addr_idx b (λ a. on_body_stored (record moved { ipv4 = a }) r)
    else if c.addr_type == 0x03
    then elim c.domain [
      | none ↦ give c r fault
      | some d ↦ store c r d c.addr_idx b (λ a. on_body_stored (record moved { domain = some a }) r)
    ]
    else if c.addr_type == 0x04
    then store c r c.ipv6 c.addr_idx b (λ a. on_body_stored (record moved { ipv6 = a }) r)
    else on_body_stored c r

unfoldable pub on_req_port : Context → List ℕ → ℕ → Turn
on_req_port c r b =
    let c' = record c { port = u16 (bit_or (c.port <<< 8) b); port_idx = u8 (c.port_idx + 1) } in
    if c'.port_idx == 2 then give (record c' { state = connecting }) r resolved else go_on c' r

module _ (malloc : ℕ → Option (List ℕ)) where
  unfoldable pub on_req_addr_len : Context → List ℕ → ℕ → Turn
  on_req_addr_len c r b =
      let c' = record c { addr_len = b } in
      if b == 0 then give_error c' r else elim (malloc (b + 1)) [
        | none ↦ give_error (record c' { domain = none }) r
        | some d ↦ go_on (record c' { domain = some d; addr_idx = 0; state = req_addr_body }) r
      ]

  -- The `switch` on the state.
  unfoldable pub dispatch : SocksState → Context → List ℕ → ℕ → Turn
  dispatch init c r b = on_init c r b
  dispatch methods c r b = on_methods c r b
  dispatch req_header c r b = on_req_header c r b
  dispatch req_addr_len c r b = on_req_addr_len c r b
  dispatch req_addr_body c r b = on_req_addr_body c r b
  dispatch req_port c r b = on_req_port c r b
  dispatch connecting c r b = give c r need_more
  dispatch forwarding c r b = give c r need_more
  dispatch error c r b = give c r failed

  -- The `for` loop over the input; `ret` is `none` when it ends by running out of bytes.
  unfoldable pub handle_from : Context → List ℕ → List ℕ → Turn
  handle_from c r [] = go_on c r
  handle_from c r (b ∷ rest) =
      let t = dispatch c.state c r b in
      elim t.ret [ none ↦ handle_from t.ctx t.resp rest | some o ↦ t ]

  -- The whole call: the context, the response and the return value.
  unfoldable pub socks5_handle_input : Context → List ℕ → Context × List ℕ × Outcome
  socks5_handle_input c buf =
      let t = handle_from c [] buf in (t.ctx, t.resp, elim t.ret [ none ↦ need_more | some o ↦ o ])
