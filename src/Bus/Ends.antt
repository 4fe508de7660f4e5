-- ===== src/Bus/Ends.antt =====
-- That the thread of agent/server/impl/AgentUAVCANServer.cpp ends once it is stopped.
use oort_agent.Base.{
  ℕ, zero, suc, ◌+◌, ◌≤◌, ◌<◌, ◌≡◌, refl, ◌⊎◌, inl, inr, Bool, true, false, Bool-cases, ltb, ltb→lt,
  Option, none, some, if◌then◌else◌, arith,
}
use oort_agent.Bus.{
  BusError, all_ifaces_down, linux_exception, other_exception, thread_running, is_linux, is_down,
  Weather, Server, Run, returns_to, escapes, null_node, goes_on, then_run, ticked, make, init_node,
  add_services, reset_services, retry, reconnect, recover, serve, server_task, new_server,
}

-- What may be said of a run that ends: of its return and of its exception. It makes no call
-- through the pointer of no node and does not go on.
abbrev pub Ends : Run → (Server → Type 0) → (BusError → Server → Type 0) → Type 0
Ends (returns_to s) Q E = Q s
Ends (escapes e s) Q E = E e s
Ends (null_node s) Q E = ⊥
Ends (goes_on s) Q E = ⊥

pub Ends-then_run :
    (r : Run) (k : Server → Run) (P Q : Server → Type 0) (E : BusError → Server → Type 0)
    → Ends r P E
    → ((s : Server) → P s → Ends (k s) Q E)
    → Ends (then_run r k) Q E
Ends-then_run (returns_to s) k P Q E h f = f s h
Ends-then_run (escapes e s) k P Q E h f = h
Ends-then_run (null_node s) k P Q E h f = absurd h
Ends-then_run (goes_on s) k P Q E h f = absurd h

-- The node and its three services are there.
pub record IsUp (s : Server) : Type 0 where
  pub has_node : s.node ≡ true
  pub has_health : s.health_srv ≡ true
  pub has_adcs : s.adcs_sub ≡ true
  pub has_tfrs : s.tfrs_sub ≡ true

-- Nothing is there.
pub record IsDown (s : Server) : Type 0 where
  pub no_node : s.node ≡ false
  pub no_health : s.health_srv ≡ false
  pub no_adcs : s.adcs_sub ≡ false
  pub no_tfrs : s.tfrs_sub ≡ false

module _ (W : Weather) where
  -- The library threw the exception in a call between two ticks.
  abbrev pub Thrown : ℕ → ℕ → BusError → Type 0
  Thrown lo hi e = (k : ℕ) × (lo ≤ k) × (k < hi) × (W.call k ≡ some e)

  -- What stands after the node is set up, and the exception of one of the four calls, which is the
  -- last.
  abbrev pub Booted : Server → Server → Type 0
  Booted s s' = IsUp s' × (s'.tick ≡ s.tick + 4)

  abbrev pub Failed : ℕ → BusError → Server → Type 0
  Failed start e s' =
      (k : ℕ) × (start ≤ k) × (k < start + 4) × (W.call k ≡ some e) × (s'.tick ≡ suc k)

  abbrev pub boot : Server → Run
  boot s = then_run (init_node W s) (add_services W)

  -- The rule for a call: where it is made, what it assigns, and what comes next.
  module _ (start : ℕ) (s : Server) (assign : Server → Server) (Q : Server → Type 0) where
    last-Ends :
        start ≤ s.tick
        → s.tick < start + 4
        → Q (assign (ticked s))
        → Ends (make W assign s) Q (Failed start)
    last-Ends lo hi next = go (W.call s.tick) refl
      where
        go :
            (r : Option BusError)
            → W.call s.tick ≡ r
            → Ends
                (elim r [ none ↦ returns_to (assign (ticked s)) | some e ↦ escapes e (ticked s) ])
                Q
                (Failed start)
        go none c = next
        go (some e) c = (s.tick, lo, hi, c, refl)

    call-Ends :
        (k : Server → Run)
        → start ≤ s.tick
        → s.tick < start + 4
        → Ends (k (assign (ticked s))) Q (Failed start)
        → Ends (then_run (make W assign s) k) Q (Failed start)
    call-Ends k lo hi next = go (W.call s.tick) refl
      where
        go :
            (r : Option BusError)
            → W.call s.tick ≡ r
            → Ends
                (then_run
                  (elim r [ none ↦ returns_to (assign (ticked s)) | some e ↦ escapes e (ticked s) ])
                  k)
                Q
                (Failed start)
        go none c = next
        go (some e) c = (s.tick, lo, hi, c, refl)

  pub boot-Ends : (s : Server) → Ends (boot s) (Booted s) (Failed s.tick)
  unfolding init_node add_services
  boot-Ends s =
      let s1 = record s { node = true; tick = suc s.tick } in
      let s2 = record s1 { health_srv = true; tick = suc s1.tick } in
      let s3 = record s2 { adcs_sub = true; tick = suc s2.tick } in
      call-Ends s.tick s (λ s. record s { node = true }) (Booted s) _ (omega arith) (omega arith)
        (call-Ends s.tick s1 (λ s. record s { health_srv = true }) (Booted s) _ (omega arith)
          (omega arith)
          (call-Ends s.tick s2 (λ s. record s { adcs_sub = true }) (Booted s) _ (omega arith)
            (omega arith)
            (last-Ends s.tick s3 (λ s. record s { tfrs_sub = true }) (Booted s) (omega arith)
              (omega arith)
              (
                record { has_node = refl; has_health = refl; has_adcs = refl; has_tfrs = refl },
                omega arith,
              ))))

pub Ends-map :
    (r : Run) (P Q : Server → Type 0) (D E : BusError → Server → Type 0)
    → ((s : Server) → P s → Q s)
    → ((e : BusError) (s : Server) → D e s → E e s)
    → Ends r P D
    → Ends r Q E
Ends-map (returns_to s) P Q D E f g h = f s h
Ends-map (escapes e s) P Q D E f g h = g e s h
Ends-map (null_node s) P Q D E f g h = h
Ends-map (goes_on s) P Q D E f g h = h

down_is_linux : (e : BusError) → is_linux e ≡ false → is_down e ≡ false
down_is_linux all_ifaces_down n = absurd cc
down_is_linux linux_exception n = absurd cc
down_is_linux other_exception n = refl

-- A server that is stopped at the tick `n`.
module _ (W : Weather) (n : ℕ) (stops : W.stopped_at ≡ some n) where
  running-cases :
      (k : ℕ) → ((thread_running W k ≡ true) × (k < n)) ⊎ ((thread_running W k ≡ false) × (n ≤ k))
  unfolding thread_running
  running-cases k = rw stops (decide (Bool-cases (ltb k n)))
    where
      decide :
          (ltb k n ≡ true) ⊎ (ltb k n ≡ false)
          → ((ltb k n ≡ true) × (k < n)) ⊎ ((ltb k n ≡ false) × (n ≤ k))
      decide (inl h) = inl (h, ltb→lt _ _ h)
      decide (inr h) = inr (h, ground (arith, h))

  -- The library threw the exception, and it is not that all interfaces are down.
  abbrev pub Abnormal : BusError → Server → Type 0
  Abnormal e s = (k : ℕ) × (W.call k ≡ some e) × (is_down e ≡ false)

  -- Behind the inner loop: the services are there again, or the thread is to stop.
  abbrev Back : Server → Server → Type 0
  Back s s' = (IsUp s' ⊎ (n ≤ s'.tick)) × (s.tick < s'.tick)

  -- Rounds enough, and one at least.
  abbrev Enough : ℕ → Server → Type 0
  Enough rounds s = (n < rounds + s.tick) × (1 ≤ rounds)

  reconnect-Ends :
      (rounds : ℕ) (s : Server) → Enough rounds s → Ends (reconnect W rounds s) (Back s) Abnormal
  unfolding reconnect
  reconnect-Ends zero s (enough, some_left) = absurd (omega (arith, some_left))
  reconnect-Ends (suc rounds) s (enough, some_left) = elim (running-cases s.tick) [
    | inr (off, late) ↦ rw (off, reconnect) (inr (omega (arith, late)), omega arith)
    | inl (on, early) ↦
        rw (on, reconnect)
          (retried (boot W (ticked s)) (boot-Ends W (ticked s)) λ s' later.
            reconnect-Ends rounds s' (omega (arith, enough, later), omega (arith, enough, early)))
  ]
    where
      retried :
          (r : Run)
          → Ends r (Booted W (ticked s)) (Failed W (suc s.tick))
          → ((s' : Server) → s.tick < s'.tick → Ends (reconnect W rounds s') (Back s') Abnormal)
          → Ends (retry W (reconnect W rounds) r) (Back s) Abnormal
      retried (returns_to s') (up, t) ih = (inl up, omega (arith, t))
      retried (escapes e s') (k, lo, hi, c, t) ih = elim (Bool-cases (is_linux e)) [
        | inl linux ↦ rw linux (
            Ends-map (reconnect W rounds s') (Back s') (Back s) Abnormal Abnormal
              (λ s'' (b, u). (b, omega (arith, lo, t, u))) (λ x s'' a. a)
              (ih s' (omega (arith, lo, t))))
        | inr other ↦ rw other (k, c, down_is_linux e other)
      ]
      retried (null_node s') h ih = absurd h
      retried (goes_on s') h ih = absurd h

  serve-Ends :
      (rounds : ℕ) (s : Server)
      → IsUp s ⊎ (n ≤ s.tick)
      → Enough rounds s
      → Ends (serve W rounds s) (λ s'. Unit {0}) Abnormal
  unfolding serve reset_services
  serve-Ends zero s up (enough, some_left) = absurd (omega (arith, some_left))
  serve-Ends (suc rounds) s up (enough, some_left) = elim (running-cases s.tick) [
    | inr (off, late) ↦ rw (off, serve) tt
    | inl (on, early) ↦
        rw (on, serve)
          (spun s.node (up_there up early).has_node (up_there up early)
            (λ s' u later.
              serve-Ends rounds s' u (omega (arith, enough, later), omega (arith, enough, early)))
            early)
  ]
    where
      up_there : IsUp s ⊎ (n ≤ s.tick) → s.tick < n → IsUp s
      up_there (inl u) early = u
      up_there (inr late) early = absurd (omega (arith, late, early))

      spun :
          (b : Bool)
          → b ≡ true
          → IsUp s
          → ((s' : Server)
              → IsUp s' ⊎ (n ≤ s'.tick)
              → s.tick < s'.tick
              → Ends (serve W rounds s') (λ s'. Unit {0}) Abnormal)
          → s.tick < n
          → Ends
              (recover W
                (serve W rounds)
                (λ s. reconnect W rounds (reset_services W s))
                (if b then make W (λ s. s) (ticked s) else null_node (ticked s)))
              (λ s'. Unit {0})
              Abnormal
      spun false there u ih early = absurd cc
      spun true there u ih early = called (W.call (suc s.tick)) refl
        where
          still : IsUp s → IsUp (ticked (ticked s))
          still u = record {
            has_node = u.has_node;
            has_health = u.has_health;
            has_adcs = u.has_adcs;
            has_tfrs = u.has_tfrs;
          }

          called :
              (r : Option BusError)
              → W.call (suc s.tick) ≡ r
              → Ends
                  (recover W
                    (serve W rounds)
                    (λ s. reconnect W rounds (reset_services W s))
                    (elim r [
                      | none ↦ returns_to (ticked (ticked s))
                      | some e ↦ escapes e (ticked (ticked s))
                    ]))
                  (λ s'. Unit {0})
                  Abnormal
          called none c = ih (ticked (ticked s)) (inl (still u)) (omega arith)
          called (some e) c = elim (Bool-cases (is_down e)) [
            | inr other ↦ rw other (suc s.tick, c, other)
            | inl down ↦ rw down (
                Ends-then_run (reconnect W rounds (reset_services W (ticked (ticked s)))) _
                  (Back (reset_services W (ticked (ticked s)))) _ _
                  (reconnect-Ends rounds (reset_services W (ticked (ticked s)))
                    (omega (arith, enough), omega (arith, enough, early)))
                  λ s' (b, later). ih s' b (omega (arith, later)))
          ]

  -- Once it is stopped, at the tick n of its calls and readings, the thread ends within n + 1
  -- rounds of its loops, whatever the bus does: it returns with the node and the three services
  -- given up, or an exception leaves it, of one of the four calls that set it up first, or of a
  -- later call and other than AllIfacesDownException. It makes no call through the pointer of no
  -- node.
  pub server_task_ends :
      (rounds : ℕ)
      → n < rounds
      → Ends (server_task W rounds new_server) IsDown (λ e s. Thrown W 0 4 e ⊎ Abnormal e s)
  unfolding server_task reset_services
  server_task_ends rounds enough =
      Ends-then_run (boot W new_server) _ (Booted W new_server) IsDown _
        (Ends-map (boot W new_server) (Booted W new_server) (Booted W new_server) (Failed W 0) _
          (λ s h. h) (λ e s (k, lo, hi, c, t). inl (k, lo, hi, c)) (boot-Ends W new_server))
        λ s (up, t).
          Ends-then_run (serve W rounds s) _ (λ s'. Unit {0}) IsDown _
            (Ends-map (serve W rounds s) (λ s'. Unit {0}) (λ s'. Unit {0}) Abnormal _ (λ s h. h)
              (λ e s a. inr a)
              (serve-Ends rounds s (inl up) (omega (arith, enough), omega (arith, enough))))
            λ s' u. record { no_node = refl; no_health = refl; no_adcs = refl; no_tfrs = refl }
