-- ===== src/Tunnel/Setup/Counts.antt =====
-- What the calls do to the number of open descriptors, as hypotheses.
use bi_tun.Base.{ℕ, ◌+◌, ◌-◌, ◌≡◌, Option, none, some, ◌==◌, if◌then◌else◌}
use bi_tun.Tunnel.Types.{Address}
use bi_tun.Tunnel.Host.{Host}
use bi_tun.Tunnel.Setup.{Platform}

-- 1 for the descriptor itself.
abbrev pub one : ℕ → ℕ → ℕ
one fd k = if fd == k then 1 else 0

abbrev pub one_if : Option ℕ → ℕ → ℕ
one_if none k = 0
one_if (some fd) k = one fd k

-- `held w k`: how many open descriptors of number `k` the process has. The calls that open one add
-- it, those that close one take it away, and the others leave the count alone.
pub record Ledger (E : Host) (O : Platform E) : Type 0 where
  pub held : Host.World E → ℕ → ℕ
  pub dgram_opens :
      (w : Host.World E) (k : ℕ)
      → held (Platform.socket_dgram O w).1 k ≡ held w k + one_if (Platform.socket_dgram O w).0 k
  pub stream_opens :
      (w : Host.World E) (k : ℕ)
      → held (Host.socket_create E w).1 k ≡ held w k + one_if (Host.socket_create E w).0 k
  pub poll_opens :
      (w : Host.World E) (k : ℕ)
      → held (Platform.poll_create O w).1 k ≡ held w k + one_if (Platform.poll_create O w).0 k
  pub queue_opens :
      (w : Host.World E) (k : ℕ)
      → held (Platform.queue_create O w).1 k ≡ held w k + one_if (Platform.queue_create O w).0 k
  pub close_closes :
      (fd : ℕ) (w : Host.World E) (k : ℕ) → held (Host.close E fd w) k ≡ held w k - one fd k
  pub poll_closes :
      (fd : ℕ) (w : Host.World E) (k : ℕ)
      → held (Platform.poll_destroy O fd w) k ≡ held w k - one fd k
  pub queue_closes :
      (fd : ℕ) (w : Host.World E) (k : ℕ)
      → held (Platform.queue_destroy O fd w) k ≡ held w k - one fd k
  pub create_keeps : (w : Host.World E) (k : ℕ) → held (Platform.mutex_create O w) k ≡ held w k
  pub lock_keeps : (w : Host.World E) (k : ℕ) → held (Platform.mutex_lock O w) k ≡ held w k
  pub unlock_keeps : (w : Host.World E) (k : ℕ) → held (Platform.mutex_unlock O w) k ≡ held w k
  pub destroy_keeps : (w : Host.World E) (k : ℕ) → held (Platform.mutex_destroy O w) k ≡ held w k
  pub nonblocking_keeps :
      (fd : ℕ) (w : Host.World E) (k : ℕ) → held (Host.set_nonblocking E fd w) k ≡ held w k
  pub reuseaddr_keeps :
      (fd : ℕ) (w : Host.World E) (k : ℕ) → held (Platform.set_reuseaddr O fd w) k ≡ held w k
  pub bind_keeps :
      (fd : ℕ) (a : Address) (w : Host.World E) (k : ℕ)
      → held (Platform.bind O fd a w).1 k ≡ held w k
  pub listen_keeps :
      (fd : ℕ) (w : Host.World E) (k : ℕ) → held (Platform.listen O fd w).1 k ≡ held w k
  pub poll_add_keeps :
      (fd : ℕ) (w : Host.World E) (k : ℕ) → held (Host.poll_add_in E fd w) k ≡ held w k
  pub real_ms_keeps : (w : Host.World E) (k : ℕ) → held (Host.real_ms E w).1 k ≡ held w k
  pub pop_keeps :
      (queue : ℕ) (w : Host.World E) (k : ℕ) → held (Platform.queue_pop O queue w).1 k ≡ held w k
