-- ===== src/Replay.antt =====
-- The anti-replay window of src/encrypt.c: the highest sequence number seen, and a 64-bit map of
-- the numbers just below it.
pub mod History
mod Tests
use bi_tun.Base.{
  ℕ, ◌-◌, ◌%◌, ◌*◌, ◌^◌, bit_and, bit_or, Bool, true, false, List, [], ◌∷◌, ltb, leb, ◌==◌, ◌!=◌,
  if◌then◌else◌, u64, ◌<<<◌,
}

-- `anti_replay_window_t`
pub record Window : Type 0 where
  pub seq_max : ℕ
  pub bitmap : ℕ

unfoldable pub anti_replay_init : Window
anti_replay_init = record { seq_max = 0; bitmap = 0 }

unfoldable pub anti_replay_check : Window → ℕ → Bool
anti_replay_check win seq =
    let offset = win.seq_max - seq in
    if seq == 0
    then false
    else if ltb win.seq_max seq
    then true
    else if leb 64 offset
    then false
    else if bit_and win.bitmap (u64 (1 <<< offset)) != 0
    then false
    else true

unfoldable pub anti_replay_update : Window → ℕ → Window
anti_replay_update win seq =
    let shift = seq - win.seq_max in
    let shifted : ℕ = if ltb shift 64 then u64 (win.bitmap <<< shift) else 0 in
    let offset = win.seq_max - seq in
    if ltb win.seq_max seq
    then record { seq_max = seq; bitmap = bit_or shifted 1 }
    else if ltb offset 64
    then record win { bitmap = bit_or win.bitmap (u64 (1 <<< offset)) }
    else win

-- The packets that the receive path of `tunnel_run` lets through, of those whose tag verifies:
-- each is checked, and recorded only if the check passed.
unfoldable pub receive_all : Window → List ℕ → List ℕ
receive_all win [] = []
receive_all win (seq ∷ rest) =
    if anti_replay_check win seq
    then seq ∷ receive_all (anti_replay_update win seq) rest
    else receive_all win rest
