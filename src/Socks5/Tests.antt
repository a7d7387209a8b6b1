-- ===== src/Socks5/Tests.antt =====
-- The parser on concrete bytes, and an instance of each of its theorems.
use bi_tun.Base.{
  ℕ, ◌≡◌, ◌≢◌, refl, ap, arith, false, ◌||◌, Option, none, some, List, [], ◌∷◌, ◌++◌, length,
  replicate, ◌==◌, length-replicate,
}
use bi_tun.Socks5.{
  init, connecting, Context, need_more, resolved, fault, on_init, on_methods, on_req_header,
  on_req_addr_body, on_req_port, dispatch, handle_from, socks5_handle_input, socks5_init,
  give_error,
}
use bi_tun.Socks5.Safe.{IsValid, handle_input-IsValid, socks5_init-IsValid}
use bi_tun.Socks5.Stream.{handle_input-append}
use bi_tun.Socks5.Greeting.{counting, offers_no_auth, greeting_answer, greeting_255_unanswered}
use bi_tun.Socks5.Request.{ready, header, port_bytes, request_ipv4}

-- An allocator that never fails.
abbrev fresh_buffer : ℕ → Option (List ℕ)
fresh_buffer n = some (replicate n 170)

abbrev zeroed : Context
zeroed = record {
  state = init;
  methods_left = 0;
  addr_type = 0;
  addr_len = 0;
  addr_idx = 0;
  port = 0;
  port_idx = 0;
  domain = none;
  ipv4 = replicate 4 0;
  ipv6 = replicate 16 0;
  req_hdr = replicate 4 0;
  req_hdr_idx = 0;
  method_idx = 0;
  found_no_auth = false;
}

-- 127.0.0.1, port 80, with the greeting in the same buffer.
abbrev to_localhost : List ℕ
to_localhost = 5 ∷ 1 ∷ 0 ∷ 5 ∷ 1 ∷ 0 ∷ 1 ∷ 127 ∷ 0 ∷ 0 ∷ 1 ∷ 0 ∷ 80 ∷ []

connects : (socks5_handle_input fresh_buffer zeroed to_localhost).2 ≡ resolved
unfolding socks5_handle_input handle_from dispatch on_init on_methods on_req_header on_req_addr_body
    on_req_port
connects = refl

zeroed-IsValid : IsValid (socks5_init zeroed)
zeroed-IsValid = socks5_init-IsValid zeroed (omega arith)

handle_input-IsValid_example :
    IsValid (socks5_handle_input fresh_buffer (socks5_init zeroed) to_localhost).0
    × ((socks5_handle_input fresh_buffer (socks5_init zeroed) to_localhost).2 ≢ fault)
handle_input-IsValid_example =
    handle_input-IsValid fresh_buffer granted (socks5_init zeroed) to_localhost (omega arith)
      zeroed-IsValid
  where
    granted : (n : ℕ) (d : List ℕ) → fresh_buffer n ≡ some d → length d ≡ n
    granted n d e = omega (arith, length-replicate {A = ℕ} n 170, ap size e)
      where
        size : Option (List ℕ) → ℕ
        size none = 0
        size (some d) = length d

handle_input-append_example :
    let (c', _, o) = socks5_handle_input fresh_buffer zeroed (5 ∷ 1 ∷ []) in
    let (d, _, q) = socks5_handle_input fresh_buffer zeroed (5 ∷ 1 ∷ 0 ∷ 5 ∷ []) in
    let (d', _, q') = socks5_handle_input fresh_buffer c' (0 ∷ 5 ∷ []) in
    (o ≡ need_more → (d ≡ d') × (q ≡ q')) × (o ≢ need_more → (d ≡ c') × (q ≡ o))
handle_input-append_example = handle_input-append fresh_buffer zeroed (5 ∷ 1 ∷ []) (0 ∷ 5 ∷ [])

greeting_answer_example :
    handle_from fresh_buffer (socks5_init zeroed) [] (5 ∷ 2 ∷ 1 ∷ 2 ∷ [])
    ≡ give_error (counting (socks5_init zeroed) 2 3 false) (0x05 ∷ 0xff ∷ [])
greeting_answer_example = greeting_answer fresh_buffer zeroed (1 ∷ []) 2 [] (omega arith)

greeting_255_unanswered_example :
    socks5_handle_input fresh_buffer
      (socks5_init zeroed)
      (0x05 ∷ 255 ∷ (replicate 254 1 ++ (0 ∷ [])))
    ≡ (
      counting (socks5_init zeroed) 255 0 (offers_no_auth (replicate 254 1) || (0 == 0)),
      [],
      need_more,
    )
greeting_255_unanswered_example =
    greeting_255_unanswered fresh_buffer zeroed (replicate 254 1) 0 (length-replicate {A = ℕ} 254 1)

request_ipv4_example :
    let (d, resp, out) =
      socks5_handle_input fresh_buffer
        (ready zeroed 9 9 9 9)
        (header 0 0x01 (127 ∷ 0 ∷ 0 ∷ 1 ∷ port_bytes 8080)) in
    (out ≡ resolved)
    × (resp ≡ [])
    × (d.state ≡ connecting)
    × (d.addr_type ≡ 1)
    × (d.ipv4 ≡ 127 ∷ 0 ∷ 0 ∷ 1 ∷ [])
    × (d.port ≡ 8080)
request_ipv4_example = request_ipv4 fresh_buffer zeroed 9 9 9 9 0 127 0 0 1 8080 (omega arith)
