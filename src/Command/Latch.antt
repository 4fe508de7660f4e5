-- ===== src/Command/Latch.antt =====
-- The latch of Agent::adcs_command (agent/server/impl/Agent.cpp) with any number of threads that
-- handle requests: their calls of the bus exclude each other.
use oort_agent.Base.{ℕ, zero, suc, ◌+◌, ◌≤◌, ◌≡◌, ◌↔◌, true, false, List, [], ◌∷◌, ◌++◌, arith}
use oort_agent.Command.{trywait, post, release}

-- Where a thread is: not in adcs_command, or in the call of the bus, with the guard owning the
-- latch, or about to answer that a request is in progress, with the guard not owning it.
pub data Place : Type 0 where
  outside : Place
  calling : Place
  refused : Place

pub record Gate : Type 0 where
  pub latch : ℕ
  pub threads : List Place

-- One thread takes a step: `guard.trywait()` on entry, and the guard's destructor at the end.
pub data Step : Gate → Gate → Type 0 where
  enter :
      (n : ℕ) (before after : List Place)
      → (trywait n).0 ≡ true
      → Step
          (record { latch = n; threads = before ++ outside ∷ after })
          (record { latch = (trywait n).1; threads = before ++ calling ∷ after })
  turn_away :
      (n : ℕ) (before after : List Place)
      → (trywait n).0 ≡ false
      → Step
          (record { latch = n; threads = before ++ outside ∷ after })
          (record { latch = (trywait n).1; threads = before ++ refused ∷ after })
  leave :
      (n : ℕ) (before after : List Place)
      → Step
          (record { latch = n; threads = before ++ calling ∷ after })
          (record { latch = release true n; threads = before ++ outside ∷ after })
  give_up :
      (n : ℕ) (before after : List Place)
      → Step
          (record { latch = n; threads = before ++ refused ∷ after })
          (record { latch = release false n; threads = before ++ outside ∷ after })

pub data Reaches : Gate → Gate → Type 0 where
  stay : (g : Gate) → Reaches g g
  then_step : (g h k : Gate) → Reaches g h → Step h k → Reaches g k

unfoldable pub calls : List Place → ℕ
calls [] = 0
calls (outside ∷ ps) = calls ps
calls (calling ∷ ps) = suc (calls ps)
calls (refused ∷ ps) = calls ps

calls-append : (ps qs : List Place) → calls (ps ++ qs) ≡ calls ps + calls qs
unfolding calls
calls-append [] qs = omega arith
calls-append (outside ∷ ps) qs = calls-append ps qs
calls-append (calling ∷ ps) qs = omega (arith, calls-append ps qs)
calls-append (refused ∷ ps) qs = calls-append ps qs

-- The latch and the calls together are one.
abbrev pub IsLatched : Gate → Type 0
IsLatched g = g.latch + calls g.threads ≡ 1

Step-IsLatched : (g h : Gate) → Step g h → IsLatched g → IsLatched h
unfolding calls trywait release post
Step-IsLatched _ _ (enter zero before after e) i = absurd cc
Step-IsLatched _ _ (enter (suc n) before after e) i =
    omega (arith, i, calls-append before (outside ∷ after), calls-append before (calling ∷ after))
Step-IsLatched _ _ (turn_away zero before after e) i =
    omega (arith, i, calls-append before (outside ∷ after), calls-append before (refused ∷ after))
Step-IsLatched _ _ (turn_away (suc n) before after e) i = absurd cc
Step-IsLatched _ _ (leave n before after) i =
    omega (arith, i, calls-append before (outside ∷ after), calls-append before (calling ∷ after))
Step-IsLatched _ _ (give_up n before after) i =
    omega (arith, i, calls-append before (outside ∷ after), calls-append before (refused ∷ after))

Reaches-IsLatched : (g h : Gate) → Reaches g h → IsLatched g → IsLatched h
Reaches-IsLatched _ _ (stay g) i = i
Reaches-IsLatched _ _ (then_step g h k r s) i = Step-IsLatched h k s (Reaches-IsLatched g h r i)

-- Started with the latch at 1 and no call under way, in every state that the threads handling
-- commands reach at most one is in the call of the bus, and the latch is 0 exactly while one is.
pub one_call :
    (threads : List Place) (h : Gate)
    → calls threads ≡ 0
    → Reaches (record { latch = 1; threads = threads }) h
    → (calls h.threads ≤ 1) × ((h.latch ≡ 0) ↔ (calls h.threads ≡ 1))
one_call threads h none_yet r =
    let i : h.latch + calls h.threads ≡ 1 = Reaches-IsLatched _ h r (omega (arith, none_yet)) in
    (omega (arith, i), ((λ e. omega (arith, i, e)), (λ e. omega (arith, i, e))))
