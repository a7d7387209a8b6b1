-- ===== src/Socks5/Greeting.antt =====
-- The method selection: which greetings are answered, and how.
use bi_tun.Base.{
  ℕ, ◌+◌, ◌≤◌, ◌<◌, ◌≡◌, ◌∙◌, ap, ap₂, arith, Bool, true, false, ◌||◌, Option, none, some, List, [],
  ◌∷◌, ◌++◌, length, ◌==◌, if◌then◌else◌,
}
use bi_tun.Socks5.{
  Context, Turn, methods, req_header, need_more, on_init, on_methods, dispatch, handle_from,
  socks5_handle_input, socks5_init, give_error,
}

abbrev pub offers_no_auth : List ℕ → Bool
offers_no_auth [] = false
offers_no_auth (m ∷ ms) = (m == 0) || offers_no_auth ms

-- The context among the methods: `idx` counts the length byte and the methods read.
abbrev pub counting : Context → ℕ → ℕ → Bool → Context
counting c left idx found = record c {
  state = methods;
  methods_left = left;
  method_idx = idx;
  found_no_auth = found;
}

offers_no_auth_last :
    (ms : List ℕ) (m : ℕ) → offers_no_auth (ms ++ (m ∷ [])) ≡ offers_no_auth ms || (m == 0)
offers_no_auth_last [] m = ground arith
offers_no_auth_last (x ∷ ms) m = ground (arith, offers_no_auth_last ms m)

module _ (malloc : ℕ → Option (List ℕ)) where
  method_more :
      (c : Context) (r : List ℕ) (left idx : ℕ) (found : Bool) (b : ℕ) (rest : List ℕ)
      → 1 ≤ idx
      → idx + 1 ≤ left
      → left < 256
      → handle_from malloc (counting c left idx found) r (b ∷ rest)
        ≡ handle_from malloc (counting c left (idx + 1) (found || (b == 0))) r rest
  unfolding handle_from dispatch on_methods
  method_more c r left idx found b rest h k l = ground arith

  method_last :
      (c : Context) (r : List ℕ) (left : ℕ) (found : Bool) (b : ℕ) (rest : List ℕ)
      → 1 ≤ left
      → left < 255
      → handle_from malloc (counting c left left found) r (b ∷ rest) ≡ (
          if found || (b == 0)
          then handle_from malloc
              (record (counting c left (left + 1) true) { state = req_header; req_hdr_idx = 0 })
              (0x05 ∷ 0x00 ∷ [])
              rest
          else give_error (counting c left (left + 1) false) (0x05 ∷ 0xff ∷ []))
  unfolding handle_from dispatch on_methods
  method_last c r left found b rest h k = ground arith

  method_wraps :
      (c : Context) (r : List ℕ) (found : Bool) (b : ℕ) (rest : List ℕ)
      → handle_from malloc (counting c 255 255 found) r (b ∷ rest)
        ≡ handle_from malloc (counting c 255 0 (found || (b == 0))) r rest
  unfolding handle_from dispatch on_methods
  method_wraps c r found b rest = ground arith

  methods_more :
      (ms : List ℕ) (c : Context) (r : List ℕ) (left idx : ℕ) (found : Bool) (rest : List ℕ)
      → 1 ≤ idx
      → idx + length ms ≤ left
      → left < 256
      → handle_from malloc (counting c left idx found) r (ms ++ rest)
        ≡ handle_from malloc (counting c left (idx + length ms) (found || offers_no_auth ms)) r rest
  methods_more [] c r left idx found rest h k l =
      ap₂ (λ i f. handle_from malloc (counting c left i f) r rest) {x = idx} {y = idx + 0}
        {u = found} {v = found || false} (omega arith) (ground arith)
  methods_more (m ∷ ms) c r left idx found rest h k l =
      method_more c r left idx found m (ms ++ rest) h (omega arith) l
      ∙ methods_more ms c r left (idx + 1) (found || (m == 0)) rest (omega arith) (omega arith) l
      ∙ ap₂ (λ i f. handle_from malloc (counting c left i f) r rest) {x = idx + 1 + length ms}
          {y = idx + length (m ∷ ms)} {u = (found || (m == 0)) || offers_no_auth ms}
          {v = found || offers_no_auth (m ∷ ms)} (omega arith) (ground arith)

  -- The version byte and the count of methods.
  greeting_opens :
      (c : Context) (r : List ℕ) (n : ℕ) (rest : List ℕ)
      → 1 ≤ n
      → handle_from malloc (socks5_init c) r (0x05 ∷ n ∷ rest)
        ≡ handle_from malloc (counting (socks5_init c) n 1 false) r rest
  unfolding handle_from dispatch on_init on_methods socks5_init
  greeting_opens c r n rest h = ground arith

  -- A greeting with 1 to 254 methods is answered as soon as its last method is read: with "no
  -- authentication" if that was offered, and else with "no acceptable methods" and the return of -1.
  pub greeting_answer :
      (c : Context) (ms : List ℕ) (m : ℕ) (rest : List ℕ)
      → length ms + 1 < 255
      → let n = length ms + 1 in
        let done = counting (socks5_init c) n (n + 1) in
        handle_from malloc (socks5_init c) [] (0x05 ∷ n ∷ (ms ++ (m ∷ rest))) ≡ (
          if offers_no_auth (ms ++ (m ∷ []))
          then handle_from malloc
              (record (done true) { state = req_header; req_hdr_idx = 0 })
              (0x05 ∷ 0x00 ∷ [])
              rest
          else give_error (done false) (0x05 ∷ 0xff ∷ []))
  greeting_answer c ms m rest h =
      let n = length ms + 1 in
      greeting_opens c [] n (ms ++ (m ∷ rest)) (omega arith)
      ∙ methods_more ms (socks5_init c) [] n 1 false (m ∷ rest) (omega arith) (omega arith)
          (omega arith)
      ∙ ap
          (λ i. handle_from malloc (counting (socks5_init c) n i (offers_no_auth ms)) [] (m ∷ rest))
          {x = 1 + length ms} {y = n} (omega arith)
      ∙ method_last (socks5_init c) [] n (offers_no_auth ms) m rest (omega arith) h
      ∙ rw (offers_no_auth_last ms m)

  wraps :
      (c : Context) (ms : List ℕ) (m : ℕ)
      → length ms ≡ 254
      → handle_from malloc (socks5_init c) [] (0x05 ∷ 255 ∷ (ms ++ (m ∷ [])))
        ≡ handle_from malloc (counting (socks5_init c) 255 0 (offers_no_auth ms || (m == 0))) [] []
  wraps c ms m h =
      greeting_opens c [] 255 (ms ++ (m ∷ [])) (omega arith)
      ∙ methods_more ms (socks5_init c) [] 255 1 false (m ∷ []) (omega arith) (omega arith)
          (omega arith)
      ∙ ap
          (λ i. handle_from malloc (counting (socks5_init c) 255 i (offers_no_auth ms)) [] (m ∷ []))
          {x = 1 + length ms} {y = 255} (omega arith)
      ∙ method_wraps (socks5_init c) [] (offers_no_auth ms) m []

  -- A client that offers 255 methods is never answered: the 8-bit counter wraps to 0 at the last
  -- method, and the parser waits for a count of methods again.
  pub greeting_255_unanswered :
      (c : Context) (ms : List ℕ) (m : ℕ)
      → length ms ≡ 254
      → socks5_handle_input malloc (socks5_init c) (0x05 ∷ 255 ∷ (ms ++ (m ∷ [])))
        ≡ (counting (socks5_init c) 255 0 (offers_no_auth ms || (m == 0)), [], need_more)
  unfolding socks5_handle_input handle_from
  greeting_255_unanswered c ms m h =
      ap (λ (t : Turn). (t.ctx, t.resp, elim t.ret [ none ↦ need_more | some o ↦ o ]))
        (wraps c ms m h)
