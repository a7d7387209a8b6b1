-- ===== src/Osal/Dns/Sound.antt =====
-- What holds in every state that the resolver thread and the tunnel's loop can reach.
use bi_tun.Base.{ℕ, Option, List}
use bi_tun.Osal.Dns.{AddrInfo}
use bi_tun.Osal.Dns.Steps.{
  System, Step, init, request, take_one, put, overflow, notify, finish, wake, handle, drained,
  leave, stop, clear, Steps, here, after,
}
use bi_tun.Osal.Dns.Invariant.{Sound}
use bi_tun.Osal.Dns.WorkerSteps.{
  init-Sound, request-Sound, take-Sound, put-Sound, overflow-Sound, notify-Sound, finish-Sound,
}
use bi_tun.Osal.Dns.LoopSteps.{
  wake-Sound, handle-Sound, drained-Sound, leave-Sound, stop-Sound, clear-Sound,
}

module _ (getaddrinfo : List ℕ → Option AddrInfo) where
  Step-Sound : {s t : System} → Step getaddrinfo s t → Sound getaddrinfo s → Sound getaddrinfo t
  Step-Sound {s} (init {d = d} e off w) h = init-Sound getaddrinfo s h d e off w
  Step-Sound {s} (request {d = d} domain channel_id r e) h =
      request-Sound getaddrinfo s h domain channel_id d e
  Step-Sound {s} (take_one {d = d} task w e) h = take-Sound getaddrinfo s h d task w e
  Step-Sound {s} (put {q = q} task allocated w e) h = put-Sound getaddrinfo s h q task allocated w e
  Step-Sound {s} (overflow {q = q} task allocated w e) h =
      overflow-Sound getaddrinfo s h q task allocated w e
  Step-Sound {s} (notify w) h = notify-Sound getaddrinfo s h w
  Step-Sound {s} (finish w e) h = finish-Sound getaddrinfo s h w
  Step-Sound {s} (wake r e) h = wake-Sound getaddrinfo s h
  Step-Sound {s} (handle {q = q} res r e) h = handle-Sound getaddrinfo s h q res r e
  Step-Sound {s} (drained {q = q} r e) h = drained-Sound getaddrinfo s h q r e
  Step-Sound {s} (leave r) h = leave-Sound getaddrinfo s h r
  Step-Sound {s} (stop {d = d} r e) h = stop-Sound getaddrinfo s h d e
  Step-Sound {s} (clear r w e) h = clear-Sound getaddrinfo s h

  pub Steps-Sound :
      {s t : System} → Steps getaddrinfo s t → Sound getaddrinfo s → Sound getaddrinfo t
  Steps-Sound here h = h
  Steps-Sound (after step rest) h = Steps-Sound rest (Step-Sound step h)
