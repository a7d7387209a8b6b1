-- ===== src/Replay/Tests.antt =====
-- The anti-replay window at concrete traffic, and an instance of each of its theorems.
use bi_tun.Base.{ℕ, false, List, [], ◌∷◌, ◌≡◌, refl}
use bi_tun.Replay.{Window, anti_replay_init, anti_replay_check, anti_replay_update, receive_all}
use bi_tun.Replay.History.{
  contains, Tracks, Distinct, is_fresh, init-Tracks, check-eq-is_fresh, update-Tracks,
  receive_all-Distinct,
}

-- Out of order, repeated, zero and too old.
abbrev traffic : List ℕ
traffic = 3 ∷ 1 ∷ 3 ∷ 0 ∷ 70 ∷ 2 ∷ 7 ∷ 7 ∷ 1 ∷ []

traffic_kept : receive_all anti_replay_init traffic ≡ 3 ∷ 1 ∷ 70 ∷ 7 ∷ []
unfolding receive_all anti_replay_init anti_replay_check anti_replay_update
traffic_kept = refl

abbrev after_three : Window
after_three = anti_replay_update anti_replay_init 3

after_three-Tracks : Tracks after_three (3 ∷ [])
after_three-Tracks = update-Tracks anti_replay_init [] 3 init-Tracks

update-Tracks_example : Tracks (anti_replay_update after_three 70) (70 ∷ 3 ∷ [])
update-Tracks_example = update-Tracks after_three (3 ∷ []) 70 after_three-Tracks

check-eq-is_fresh_example :
    anti_replay_check after_three 3 ≡ is_fresh after_three.seq_max (3 ∷ []) 3
check-eq-is_fresh_example = check-eq-is_fresh after_three (3 ∷ []) 3 after_three-Tracks

receive_all-Distinct_example :
    Distinct (receive_all anti_replay_init traffic)
    × (contains 0 (receive_all anti_replay_init traffic) ≡ false)
receive_all-Distinct_example = receive_all-Distinct traffic
