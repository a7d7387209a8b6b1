-- ===== src/Cli/Parse.antt =====
-- What the command line of src/linux/main.c makes of its arguments.
use bi_tun.Base.{
  ℕ, zero, suc, ◌+◌, ◌-◌, ◌≤◌, ◌<◌, ◌≡◌, ◌≢◌, refl, sym, ap, ◌∙◌, arith, none, some, List, [], ◌∷◌,
  ◌++◌, length, length-append, length-take, length-replicate, take, replicate, leb, Bool-cases,
  Option-cases, ◌⊎◌, inl, inr, leb→le,
}
use mathlib.Core.Path.{subst}
use bi_tun.Tunnel.Types.{Config}
use bi_tun.Cli.{
  dash, flag_of, same_string, Options, Verdict, exits, goes_on, psk_len, key_of, split_colon,
  parse_args, configure, config_of,
}

key_of-length : (chars : List ℕ) → length (key_of chars) ≡ 32
unfolding key_of
key_of-length chars = elim (Bool-cases (leb psk_len (length chars))) [
  | inl long ↦
      let enough = leb→le psk_len (length chars) long in
      rw (long, key_of) (length-take 32 chars ∙ omega arith)
  | inr short ↦
      let few : length chars < 32 = ground arith in
      rw (short, key_of)
        (length-append chars (replicate (32 - length chars) 0)
          ∙ ap (λ n. length chars + n) (length-replicate {A = ℕ} (32 - length chars) 0)
          ∙ omega arith)
]

take-append_left : (n : ℕ) (xs ys : List ℕ) → n ≤ length xs → take n (xs ++ ys) ≡ take n xs
take-append_left zero xs ys h = refl
take-append_left (suc n) [] ys h = absurd (omega arith)
take-append_left (suc n) (x ∷ xs) ys h = ap (λ zs. x ∷ zs) (take-append_left n xs ys (omega arith))

take_zeros : (n m : ℕ) → n ≤ m → take {A = ℕ} n (replicate m 0) ≡ replicate n 0
take_zeros zero m h = refl
take_zeros (suc n) zero h = absurd (omega arith)
take_zeros (suc n) (suc m) h = ap (λ zs. 0 ∷ zs) (take_zeros n m (omega arith))

take-padded :
    (n m : ℕ) (xs : List ℕ)
    → length xs ≤ n
    → n ≤ m
    → take n (xs ++ replicate m 0) ≡ xs ++ replicate (n - length xs) 0
take-padded n m [] h g =
    take_zeros n m g ∙ ap (λ k. replicate k 0) {x = n} {y = n - 0} (omega arith)
take-padded zero m (x ∷ xs) h g = absurd (omega arith)
take-padded (suc n) m (x ∷ xs) h g =
    ap (λ zs. x ∷ zs)
      (take-padded n m xs (omega arith) (omega arith)
        ∙ ap (λ k. xs ++ replicate k 0) {x = n - length xs} {y = suc n - suc (length xs)}
            (omega arith))

key_of-padded : (chars : List ℕ) → key_of chars ≡ take 32 (chars ++ replicate 32 0)
unfolding key_of
key_of-padded chars = elim (Bool-cases (leb psk_len (length chars))) [
  | inl long ↦
      rw (long, key_of)
        (sym (take-append_left 32 chars (replicate 32 0) (leb→le 32 (length chars) long)))
  | inr short ↦ rw (short, key_of) (sym (take-padded 32 32 chars (ground arith) (omega arith)))
]

-- No ':' in a string.
abbrev pub NoColon : List ℕ → Type 0
NoColon [] = Unit {0}
NoColon (c ∷ rest) = (c ≢ 58) × NoColon rest

-- An address is split at its first ':'.
split_colon-append :
    (ip number : List ℕ) → NoColon ip → split_colon (ip ++ (58 ∷ number)) ≡ some (ip, number)
unfolding split_colon
split_colon-append [] number h = refl
split_colon-append (c ∷ ip) number h = ground (arith, h.0, split_colon-append ip number h.1)

Verdict-cases :
    {A : Type 0} (r : Verdict A) → ((code : ℕ) × (r ≡ exits code)) ⊎ ((a : A) × (r ≡ goes_on a))
Verdict-cases (exits code) = inl (code, refl)
Verdict-cases (goes_on a) = inr (a, refl)

goes_on_inj : {A : Type 0} {a b : A} → goes_on a ≡ goes_on b → a ≡ b
goes_on_inj {a = a} e = ap (λ r. elim r [ exits code ↦ a | goes_on x ↦ x ]) e

exits-ne-goes_on : {A B : Type 0} {code : ℕ} {a : A} → exits code ≡ goes_on a → B
exits-ne-goes_on e = absurd (ground (arith, e))

module _ (atoi : List ℕ → ℕ) where
  abbrev IsValid : Config → Type 0
  IsValid c = (length c.psk ≡ 32) × (0 < c.local_port)

  configure-IsValid : (o : Options) (c : Config) → configure atoi o ≡ goes_on c → IsValid c
  unfolding configure
  configure-IsValid o c e = elim (Bool-cases (leb o.local_port 0)) [
    | inl none_given ↦ exits-ne-goes_on (rw (none_given, configure) at e)
    | inr given ↦ elim (Option-cases o.psk_str) [
      | inl no_key ↦ exits-ne-goes_on (rw (given, configure, no_key) at e)
      | inr (chars, key) ↦
          let positive : 0 < o.local_port = ground arith in
          elim (Option-cases o.remote_str) [
            | inl passive ↦
                subst IsValid (goes_on_inj (rw (given, configure, key, passive) at e))
                  (key_of-length chars, positive)
            | inr (text, active) ↦ elim (Option-cases (split_colon text)) [
              | inl no_colon ↦ exits-ne-goes_on (rw (given, configure, key, active, no_colon) at e)
              | inr (parts, split) ↦
                  subst IsValid (goes_on_inj (rw (given, configure, key, active, split) at e))
                    (key_of-length chars, positive)
            ]
          ]
    ]
  ]

  -- Whatever the arguments: a configuration that the tunnel is started with has a key of 32 bytes
  -- and a local port above 0.
  pub config_of-valid :
      (args : List (List ℕ)) (c : Config)
      → config_of atoi args ≡ goes_on c
      → (length c.psk ≡ 32) × (0 < c.local_port)
  unfolding config_of
  config_of-valid args c e =
      let none_yet : Options = record { local_port = 0; remote_str = none; psk_str = none } in
      elim (Verdict-cases (parse_args atoi none_yet args)) [
        | inl (code, bad) ↦ exits-ne-goes_on (rw (config_of, bad) at e)
        | inr (o, good) ↦ configure-IsValid o c (rw (config_of, good) at e)
      ]

  -- A full command line: with `-p`, `-r` and `-k`, a port above 0 and an address without ':', the
  -- tunnel gets the port, the address as it stands before the first ':', the number after it, and
  -- the key cut or filled with zeros to 32 bytes.
  pub config_of-full :
      (local ip number chars : List ℕ)
      → 0 < atoi local
      → NoColon ip
      → config_of atoi (
          dash (112 ∷ [])
          ∷ local
          ∷ dash (114 ∷ [])
          ∷ (ip ++ (58 ∷ number))
          ∷ dash (107 ∷ [])
          ∷ chars
          ∷ [])
        ≡ goes_on (record {
          local_ip = none;
          local_port = atoi local;
          remote_ip = some ip;
          remote_port = atoi number;
          psk = take 32 (chars ++ replicate 32 0);
        })
  unfolding config_of parse_args flag_of same_string configure
  config_of-full local ip number chars positive plain =
      let split = split_colon-append ip number plain in
      let key = key_of-padded chars in ground (arith, split, key)
