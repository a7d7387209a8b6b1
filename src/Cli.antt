-- ===== src/Cli.antt =====
-- The command line and `main` of src/linux/main.c. A string is the list of its characters; `atoi` is
-- a parameter, in which a negative number counts as 0, as the code treats the two alike.
use bi_tun.Base.{
  ℕ, zero, suc, ◌+◌, ◌-◌, ◌≤◌, ◌<◌, ◌≡◌, ◌≢◌, refl, sym, ap, ap₂, ◌∙◌, arith, Bool, true, false,
  ◌&&◌, ◌||◌, Option, none, some, List, [], ◌∷◌, ◌++◌, length, length-append, length-take,
  length-replicate, min, take, replicate, ltb, leb, ◌==◌, if◌then◌else◌, Bool-cases, Option-cases,
  inl, inr,
}
use bi_tun.Tunnel.Types.{Config}
use bi_tun.Tunnel.Host.{Host}
use bi_tun.Tunnel.Send.{Sys}
use bi_tun.Tunnel.Setup.{Platform, Process, tunnel_init, tunnel_destroy}
use bi_tun.Tunnel.Run.{tunnel_run}
pub mod Parse
mod Tests

abbrev pub psk_len : ℕ
psk_len = 32

-- `strcmp(a, b) == 0`
unfoldable pub same_string : List ℕ → List ℕ → Bool
same_string [] [] = true
same_string [] (b ∷ bs) = false
same_string (a ∷ as') [] = false
same_string (a ∷ as') (b ∷ bs) = (a == b) && same_string as' bs

-- What an argument is.
pub data Flag : Type 0 where
  port remote psk deprecated help unknown : Flag

abbrev pub dash : List ℕ → List ℕ
dash name = 45 ∷ name

unfoldable pub flag_of : List ℕ → Flag
unfolding same_string
flag_of arg =
    if same_string arg (dash (112 ∷ []))
      || same_string arg (dash (dash (112 ∷ 111 ∷ 114 ∷ 116 ∷ [])))
    then port
    else if same_string arg (dash (114 ∷ []))
        || same_string arg (dash (dash (114 ∷ 101 ∷ 109 ∷ 111 ∷ 116 ∷ 101 ∷ [])))
    then remote
    else if same_string arg (dash (107 ∷ []))
        || same_string arg (dash (dash (112 ∷ 115 ∷ 107 ∷ [])))
    then psk
    else if same_string arg (dash (dash (111 ∷ 100 ∷ 100 ∷ [])))
    then deprecated
    else if same_string arg (dash (dash (101 ∷ 118 ∷ 101 ∷ 110 ∷ [])))
    then deprecated
    else if same_string arg (dash (104 ∷ []))
        || same_string arg (dash (dash (104 ∷ 101 ∷ 108 ∷ 112 ∷ [])))
    then help
    else unknown

-- `config.local_port`, `remote_str` and `psk_str`.
pub record Options : Type 0 where
  pub local_port : ℕ
  pub remote_str : Option (List ℕ)
  pub psk_str : Option (List ℕ)

-- A return from `main` with a code, or what it goes on with.
pub data Verdict {ℓ} (A : Type ℓ) : Type ℓ where
  exits : ℕ → Verdict A
  goes_on : A → Verdict A

-- The copy of the key over 32 bytes.
unfoldable pub key_of : List ℕ → List ℕ
key_of chars =
    if leb psk_len (length chars)
    then take psk_len chars
    else chars ++ replicate (psk_len - length chars) 0

-- What stands before the first ':' and after it.
unfoldable pub split_colon : List ℕ → Option (List ℕ × List ℕ)
split_colon [] = none
split_colon (c ∷ rest) =
    let later = split_colon rest in
    if c == 58
    then some ([], rest)
    else elim later [ none ↦ none | some parts ↦ some (c ∷ parts.0, parts.1) ]

module _ (atoi : List ℕ → ℕ) where
  -- The loop over `argv`.
  unfoldable pub parse_args : Options → List (List ℕ) → Verdict Options
  unfolding flag_of
  parse_args o [] = goes_on o
  parse_args o (arg ∷ []) = elim (flag_of arg) [
    | port ↦ exits 1
    | remote ↦ exits 1
    | psk ↦ exits 1
    | deprecated ↦ goes_on o
    | help ↦ exits 0
    | unknown ↦ exits 1
  ]
  parse_args o (arg ∷ value ∷ rest) = elim (flag_of arg) [
    | port ↦ parse_args (record o { local_port = atoi value }) rest
    | remote ↦ parse_args (record o { remote_str = some value }) rest
    | psk ↦ parse_args (record o { psk_str = some value }) rest
    | deprecated ↦ parse_args o (value ∷ rest)
    | help ↦ exits 0
    | unknown ↦ exits 1
  ]

  -- From the checks of the options to the parsed address.
  unfoldable pub configure : Options → Verdict Config
  unfolding key_of split_colon
  configure o = if leb o.local_port 0 then exits 1 else elim o.psk_str [
    | none ↦ exits 1
    | some chars ↦
        let passive : Config = record {
          local_ip = none;
          local_port = o.local_port;
          remote_ip = none;
          remote_port = 0;
          psk = key_of chars;
        } in
        elim o.remote_str [
          | none ↦ goes_on passive
          | some text ↦ elim (split_colon text) [
            | none ↦ exits 1
            | some parts ↦
                goes_on (record passive { remote_ip = some parts.0; remote_port = atoi parts.1 })
          ]
        ]
  ]

  -- `main` up to the tunnel, of the arguments behind the program's name.
  unfoldable pub config_of : List (List ℕ) → Verdict Config
  unfolding parse_args configure
  config_of args =
      elim (parse_args (record { local_port = 0; remote_str = none; psk_str = none }) args) [
        | exits code ↦ exits code
        | goes_on o ↦ configure o
      ]

  module _ (E : Host) (O : Platform E) (dns_init dns_deinit : Host.World E → Host.World E) where
    -- The exit code, and the world that is left; `fuel` bounds the rounds of the loop.
    unfoldable pub main : ℕ → List (List ℕ) → Host.World E → ℕ × Host.World E
    unfolding config_of
    main fuel args w = elim (config_of args) [
      | exits code ↦ (code, w)
      | goes_on config ↦
          let (made, after_init) = tunnel_init E O config 1 2 (dns_init w) in
          elim made [
            | none ↦ (1, dns_deinit after_init)
            | some p ↦
                let done = tunnel_run E O fuel p in
                let stopped = record (done.sys) { world = dns_deinit done.sys.world } in
                (0, (tunnel_destroy E O fuel (record done { sys = stopped })).sys.world)
          ]
    ]
