-- ===== src/Socks5/Stream.antt =====
-- The parser reads a stream: how the bytes are cut into calls does not matter.
use bi_tun.Base.{
  ℕ, Option, none, some, List, [], ◌∷◌, ◌++◌, ◌≡◌, ◌≢◌, refl, sym, ◌∙◌, arith, Option-cases, inl,
  inr, ◌⊎◌, ap,
}
use bi_tun.Socks5.{
  SocksState, init, methods, req_header, req_addr_len, req_addr_body, req_port, connecting,
  forwarding, error, Context, Turn, Outcome, need_more, on_init, on_methods, on_req_header,
  on_req_addr_len, on_req_addr_body, on_req_port, dispatch, handle_from, socks5_handle_input,
}

module _ (malloc : ℕ → Option (List ℕ)) where
  pub handle_from-next :
      (c : Context) (r : List ℕ) (b : ℕ) (rest : List ℕ)
      → (dispatch malloc c.state c r b).ret ≡ none
      → handle_from malloc c r (b ∷ rest)
        ≡ handle_from malloc
            (dispatch malloc c.state c r b).ctx
            (dispatch malloc c.state c r b).resp
            rest
  unfolding handle_from
  handle_from-next c r b rest e = rw (e, handle_from)

  pub handle_from-stop :
      (c : Context) (r : List ℕ) (b : ℕ) (rest : List ℕ) {o : Outcome}
      → (dispatch malloc c.state c r b).ret ≡ some o
      → handle_from malloc c r (b ∷ rest) ≡ dispatch malloc c.state c r b
  unfolding handle_from
  handle_from-stop c r b rest e = simp (e, handle_from)

  -- A part that is read to its end hands its context and response to the rest.
  pub handle_from-append :
      (c : Context) (r xs ys : List ℕ)
      → (handle_from malloc c r xs).ret ≡ none
      → handle_from malloc c r (xs ++ ys)
        ≡ handle_from malloc (handle_from malloc c r xs).ctx (handle_from malloc c r xs).resp ys
  handle_from-append c r [] ys e = unfold handle_from in refl
  handle_from-append c r (b ∷ xs) ys e = elim (Option-cases (dispatch malloc c.state c r b).ret) [
    | inl goes_on ↦
        let first = handle_from-next c r b xs goes_on in
        handle_from-next c r b (xs ++ ys) goes_on
        ∙ handle_from-append (dispatch malloc c.state c r b).ctx
            (dispatch malloc c.state c r b).resp xs ys (ap (λ (t : Turn). t.ret) (sym first) ∙ e)
        ∙ ap (λ t. handle_from malloc t.ctx t.resp ys) (sym first)
    | inr (o, stops) ↦ cc (ap (λ (t : Turn). t.ret) (handle_from-stop c r b xs stops))
  ]

  -- A part at which the parser returns decides the whole.
  pub handle_from-append_stop :
      (c : Context) (r xs ys : List ℕ) {o : Outcome}
      → (handle_from malloc c r xs).ret ≡ some o
      → handle_from malloc c r (xs ++ ys) ≡ handle_from malloc c r xs
  handle_from-append_stop c r [] ys e = unfold handle_from in cc
  handle_from-append_stop c r (b ∷ xs) ys e =
      elim (Option-cases (dispatch malloc c.state c r b).ret) [
        | inl goes_on ↦
            let first = handle_from-next c r b xs goes_on in
            handle_from-next c r b (xs ++ ys) goes_on
            ∙ handle_from-append_stop (dispatch malloc c.state c r b).ctx
                (dispatch malloc c.state c r b).resp xs ys
                (ap (λ (t : Turn). t.ret) (sym first) ∙ e)
            ∙ sym first
        | inr (o, stops) ↦
            handle_from-stop c r b (xs ++ ys) stops ∙ sym (handle_from-stop c r b xs stops)
      ]

  -- The only early return of 0 is in a state that ignores its input.
  dispatch_idle :
      (s : SocksState) (c : Context) (r : List ℕ) (b : ℕ)
      → (dispatch malloc s c r b).ret ≡ some need_more
      → ((s ≡ connecting) ⊎ (s ≡ forwarding)) × ((dispatch malloc s c r b).ctx ≡ c)
  unfolding dispatch
  dispatch_idle init c r b e = absurd (unfold on_init in ground arith)
  dispatch_idle methods c r b e = absurd (unfold on_methods in ground arith)
  dispatch_idle req_header c r b e = absurd (unfold on_req_header in ground arith)
  dispatch_idle req_addr_len c r b e = absurd (unfold on_req_addr_len in ground arith)
  dispatch_idle req_addr_body c r b e = absurd (unfold on_req_addr_body in ground arith)
  dispatch_idle req_port c r b e = absurd (unfold on_req_port in ground arith)
  dispatch_idle connecting c r b e = (inl refl, refl)
  dispatch_idle forwarding c r b e = (inr refl, refl)
  dispatch_idle error c r b e = cc

  abbrev code : Option Outcome → Outcome
  code none = need_more
  code (some o) = o

  abbrev value : Turn → Context × Outcome
  value t = (t.ctx, code t.ret)

  dispatch_ignores :
      (s : SocksState) (c : Context) (r : List ℕ) (b : ℕ)
      → (s ≡ connecting) ⊎ (s ≡ forwarding)
      → dispatch malloc s c r b ≡ record { ctx = c; resp = r; ret = some need_more }
  unfolding dispatch
  dispatch_ignores connecting c r b h = refl
  dispatch_ignores forwarding c r b h = refl
  dispatch_ignores _ c r b h = ground arith

  idle-value :
      (c : Context) (r ys : List ℕ)
      → (c.state ≡ connecting) ⊎ (c.state ≡ forwarding)
      → value (handle_from malloc c r ys) ≡ (c, need_more)
  idle-value c r [] h = unfold handle_from in refl
  idle-value c r (y ∷ ys) h =
      let e = dispatch_ignores c.state c r y h in
      ap value (handle_from-stop c r y ys (ap (λ (t : Turn). t.ret) e) ∙ e)

  -- An early return of 0 leaves the parser in a state that ignores all further input.
  stopped_idle :
      (c : Context) (r xs : List ℕ)
      → (handle_from malloc c r xs).ret ≡ some need_more
      → (let d = (handle_from malloc c r xs).ctx in (d.state ≡ connecting) ⊎ (d.state ≡ forwarding))
  stopped_idle c r [] e = absurd (unfold handle_from in cc)
  stopped_idle c r (b ∷ xs) e = elim (Option-cases (dispatch malloc c.state c r b).ret) [
    | inl goes_on ↦
        let first = handle_from-next c r b xs goes_on in
        rw first (
          stopped_idle (dispatch malloc c.state c r b).ctx (dispatch malloc c.state c r b).resp xs
            (rw first at e))
    | inr (o, stops) ↦
        let first = handle_from-stop c r b xs stops in
        let here = dispatch_idle c.state c r b (rw first at e) in rw (first, here.1) here.0
  ]

  -- The response already given has no influence on the parser.
  dispatch-resp :
      (s : SocksState) (c : Context) (r q : List ℕ) (b : ℕ)
      → ((dispatch malloc s c r b).ctx ≡ (dispatch malloc s c q b).ctx)
        × ((dispatch malloc s c r b).ret ≡ (dispatch malloc s c q b).ret)
  unfolding dispatch
  dispatch-resp init c r q b = unfold on_init in ground arith
  dispatch-resp methods c r q b = unfold on_methods in ground arith
  dispatch-resp req_header c r q b = unfold on_req_header in ground arith
  dispatch-resp req_addr_len c r q b = unfold on_req_addr_len in ground arith
  dispatch-resp req_addr_body c r q b = unfold on_req_addr_body in ground arith
  dispatch-resp req_port c r q b = unfold on_req_port in ground arith
  dispatch-resp connecting c r q b = (refl, refl)
  dispatch-resp forwarding c r q b = (refl, refl)
  dispatch-resp error c r q b = (refl, refl)

  value-resp :
      (c : Context) (r q ys : List ℕ)
      → value (handle_from malloc c r ys) ≡ value (handle_from malloc c q ys)
  value-resp c r q [] = unfold handle_from in refl
  value-resp c r q (b ∷ ys) =
      let same = dispatch-resp c.state c r q b in
      elim (Option-cases (dispatch malloc c.state c r b).ret) [
        | inl goes_on ↦
            ap value (handle_from-next c r b ys goes_on)
            ∙ ap (λ d. value (handle_from malloc d (dispatch malloc c.state c r b).resp ys)) same.0
            ∙ value-resp (dispatch malloc c.state c q b).ctx (dispatch malloc c.state c r b).resp
                (dispatch malloc c.state c q b).resp ys
            ∙ sym (ap value (handle_from-next c q b ys (sym same.1 ∙ goes_on)))
        | inr (o, stops) ↦
            ap value (handle_from-stop c r b ys stops)
            ∙ cc (same.0, same.1)
            ∙ sym (ap value (handle_from-stop c q b ys (sym same.1 ∙ stops)))
      ]

  -- Later calls add nothing to a call that returned 1 or -1, and go on from one that returned 0: the
  -- context and the return value do not depend on how the bytes were cut.
  pub handle_input-append :
      (c : Context) (xs ys : List ℕ)
      → let (c', _, o) = socks5_handle_input malloc c xs in
        let (d, _, q) = socks5_handle_input malloc c (xs ++ ys) in
        let (d', _, q') = socks5_handle_input malloc c' ys in
        (o ≡ need_more → (d ≡ d') × (q ≡ q')) × (o ≢ need_more → (d ≡ c') × (q ≡ o))
  unfolding socks5_handle_input
  handle_input-append c xs ys =
      let t = handle_from malloc c [] xs in
      elim (Option-cases t.ret) [
        | inl goes_on ↦
            let whole = handle_from-append c [] xs ys goes_on in
            let same = ap value whole ∙ value-resp t.ctx t.resp [] ys in
            (λ e. (ap (λ p. p.0) same, ap (λ p. p.1) same), λ h. absurd (h (ap code goes_on)))
        | inr (o, stops) ↦
            let whole = handle_from-append_stop c [] xs ys stops in
            let same = ap value whole in
            (
              λ e.
                  let idle =
                    idle-value t.ctx [] ys
                      (stopped_idle c [] xs (stops ∙ ap some (sym (ap code stops) ∙ e))) in
                  (
                    ap (λ p. p.0) same ∙ sym (ap (λ p. p.0) idle),
                    ap (λ p. p.1) same ∙ e ∙ sym (ap (λ p. p.1) idle),
                  ),
              λ h. (ap (λ p. p.0) same, ap (λ p. p.1) same),
            )
      ]
