-- ===== src/Bus/Reconnects.antt =====
-- That the thread of agent/server/impl/AgentUAVCANServer.cpp is back once the interface is.
use oort_agent.Base.{
  ℕ, zero, suc, ◌+◌, ◌≤◌, ◌<◌, ◌≡◌, refl, ◌⊎◌, inl, inr, true, Option, none, some, arith,
}
use oort_agent.Bus.{
  BusError, Weather, thread_running, is_linux, Server, Run, returns_to, escapes, null_node, goes_on,
  ticked, retry, reconnect,
}
use oort_agent.Bus.Ends.{Ends, IsUp, Booted, Failed, boot, boot-Ends}

-- An interface that is down until the tick `up`: calls fail with exceptions of the library only,
-- and from then on they succeed. The server is not stopped.
pub record ComesUp (W : Weather) (up : ℕ) : Type 0 where
  pub unstopped : W.stopped_at ≡ none
  pub works : (k : ℕ) → up ≤ k → W.call k ≡ none
  pub fails_so : (k : ℕ) (e : BusError) → W.call k ≡ some e → is_linux e ≡ true

module _ (W : Weather) (up : ℕ) (c : ComesUp W up) where
  runs_on : (k : ℕ) → thread_running W k ≡ true
  unfolding thread_running
  runs_on k = rw c.unstopped refl

  fails_before : (k : ℕ) (e : BusError) → W.call k ≡ some e → k < up
  fails_before k e f = elim (le_or_lt up k) [
    | inl late ↦ absurd (clash (c.works k late) f)
    | inr early ↦ early
  ]
    where
      le_or_lt : (a b : ℕ) → (a ≤ b) ⊎ (b < a)
      le_or_lt a b = ground arith

      clash : {o : Option BusError} → o ≡ none → o ≡ some e → ⊥
      clash p q = cc

  -- For a server that is not stopped and an interface that is down up to some tick, with
  -- exceptions of the library only, and works from then on: the inner loop, begun less than five
  -- ticks behind that tick at the latest and with rounds enough to come to it, returns with the
  -- node and the three services there, within ten ticks of the interface being up.
  pub reconnect-IsUp :
      (rounds : ℕ) (s : Server)
      → s.tick < up + 5
      → up < rounds + s.tick
      → 1 ≤ rounds
      → Ends (reconnect W rounds s) (λ s'. IsUp s' × (s'.tick < up + 10)) (λ e s'. ⊥)
  unfolding reconnect
  reconnect-IsUp zero s near enough some_left = absurd (omega (arith, some_left))
  reconnect-IsUp (suc rounds) s near enough some_left =
      rw (runs_on s.tick, reconnect)
        (retried (boot W (ticked s)) (boot-Ends W (ticked s)) λ s' later early.
          reconnect-IsUp rounds s' (omega (arith, early)) (omega (arith, enough, later))
            (omega (arith, enough, later, early)))
    where
      retried :
          (r : Run)
          → Ends r (Booted W (ticked s)) (Failed W (suc s.tick))
          → ((s' : Server)
              → s.tick < s'.tick
              → s'.tick ≤ up
              → Ends (reconnect W rounds s') (λ s'. IsUp s' × (s'.tick < up + 10)) (λ e s'. ⊥))
          → Ends (retry W (reconnect W rounds) r) (λ s'. IsUp s' × (s'.tick < up + 10)) (λ e s'. ⊥)
      retried (returns_to s') (u, t) ih = (u, omega (arith, t, near))
      retried (escapes e s') (k, lo, hi, f, t) ih =
          rw (c.fails_so k e f)
            (ih s' (omega (arith, lo, t)) (omega (arith, t, fails_before k e f)))
      retried (null_node s') h ih = absurd h
      retried (goes_on s') h ih = absurd h
