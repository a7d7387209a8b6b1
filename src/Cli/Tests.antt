-- ===== src/Cli/Tests.antt =====
-- The command line on small cases, with a port or number that is written in as many characters.
use bi_tun.Base.{ℕ, ◌≡◌, refl, arith, none, some, List, [], ◌∷◌, ◌++◌, length, take, replicate}
use bi_tun.Tunnel.Types.{Config}
use bi_tun.Cli.{
  dash, flag_of, same_string, key_of, exits, goes_on, parse_args, configure, config_of,
}
use bi_tun.Cli.Parse.{config_of-full}

abbrev tally : List ℕ → ℕ
tally chars = length chars

abbrev passive_line : List (List ℕ)
passive_line = dash (112 ∷ []) ∷ (57 ∷ 48 ∷ []) ∷ dash (107 ∷ []) ∷ (75 ∷ []) ∷ []

abbrev passive_config : Config
passive_config = record {
  local_ip = none;
  local_port = 2;
  remote_ip = none;
  remote_port = 0;
  psk = 75 ∷ replicate 31 0;
}

passive : config_of tally passive_line ≡ goes_on passive_config
unfolding config_of parse_args flag_of same_string configure key_of
passive = refl

no_key : config_of tally (dash (112 ∷ []) ∷ (57 ∷ []) ∷ []) ≡ exits 1
unfolding config_of parse_args flag_of same_string configure
no_key = refl

config_of-full_example :
    config_of tally (
      dash (112 ∷ [])
      ∷ (57 ∷ 48 ∷ [])
      ∷ dash (114 ∷ [])
      ∷ ((49 ∷ []) ++ (58 ∷ 57 ∷ []))
      ∷ dash (107 ∷ [])
      ∷ (75 ∷ [])
      ∷ [])
    ≡ goes_on (record {
      local_ip = none;
      local_port = 2;
      remote_ip = some (49 ∷ []);
      remote_port = 1;
      psk = take 32 ((75 ∷ []) ++ replicate 32 0);
    })
config_of-full_example =
    config_of-full tally (57 ∷ 48 ∷ []) (49 ∷ []) (57 ∷ []) (75 ∷ []) (omega arith)
      ((λ e. omega arith), tt)
