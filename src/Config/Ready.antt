-- ===== src/Config/Ready.antt =====
-- What AgentConfig::parseOptions (agent/server/impl/Config.cpp) has checked when it returns true.
use oort_agent.Base.{
  ℕ, ◌≡◌, refl, ◌⊎◌, inl, inr, Bool, true, false, ◌&&◌, Bool-cases, List, [], ◌∷◌, Bytes, codes,
  bytes_eq, ◌==◌, ==_iff, if◌then◌else◌, Exception, Result, ok, raise, Outcome, returns, throws,
  Outcome-cases, Ensures, Ensures-returns, Ensures-if, arith,
}
use oort_agent.Posix.{FileSystem}
use oort_agent.Files.{is_empty}
use oort_agent.Config.{AgentConfig, check_dir}
use oort_agent.Config.Numbers.{stoul, char_at}
use oort_agent.Config.Options.{
  is_invalid_argument, taken, set_minfree, min_free, log_level, take_option, apply_defaults, finish,
  option_loop, parse_options,
}

module _ (F : FileSystem) (euid : ℕ) (s : F.State) where
  -- A work directory that is set has passed the checks.
  abbrev HasDir : AgentConfig → Type 0
  HasDir c = (c.workdir ≡ []) ⊎ (check_dir F euid c.workdir s ≡ ok tt)

  -- When a part lets the loop go on.
  abbrev OnTrue : (AgentConfig → Type 0) → Bool → AgentConfig → Type 0
  OnTrue P go d = go ≡ true → P d

  abbrev pub Any : Exception → AgentConfig → Type 0
  Any e d = Unit

  branch :
      (P : AgentConfig → Type 0) (b : Bool) (x y : Outcome AgentConfig Bool)
      → Ensures x (OnTrue P) Any
      → Ensures y (OnTrue P) Any
      → Ensures (if b then x else y) (OnTrue P) Any
  branch P true x y h k = h
  branch P false x y h k = k

  taken-Ensures :
      {A : Type 0} (P : AgentConfig → Type 0) (r : Result A) (set : A → AgentConfig → AgentConfig)
      (c : AgentConfig)
      → ((a : A) → r ≡ ok a → P (set a c))
      → Ensures (taken r set c) (OnTrue P) Any
  taken-Ensures P (ok a) set c h = λ e. h a refl
  taken-Ensures P (raise x) set c h =
      branch P (is_invalid_argument x) (returns false c) (throws x c) (λ e. absurd cc) tt

  min_free-Ensures :
      (arg : Bytes) (c : AgentConfig) → HasDir c → Ensures (min_free arg c) (OnTrue HasDir) Any
  unfolding min_free set_minfree
  min_free-Ensures arg c h = go (stoul arg)
    where
      go :
          (r : Result (ℕ × ℕ))
          → Ensures
              (elim r [
                | ok p ↦ set_minfree arg p c
                | raise e ↦ if is_invalid_argument e then returns false c else throws e c
              ])
              (OnTrue HasDir)
              Any
      go (ok (value, at)) =
          branch HasDir (char_at arg at == b'M') _ _ (λ e. h)
            (branch HasDir (char_at arg at == b'%') _ _ (λ e. h) (λ e. absurd cc))
      go (raise x) = branch HasDir (is_invalid_argument x) _ _ (λ e. absurd cc) tt

  log_level-Ensures :
      (arg : Bytes) (c : AgentConfig) → HasDir c → Ensures (log_level arg c) (OnTrue HasDir) Any
  unfolding log_level
  log_level-Ensures arg c h =
      Ensures-if (OnTrue HasDir) Any c (bytes_eq arg (codes "debug")) _ _ (λ q e. h)
        (λ q.
          Ensures-if (OnTrue HasDir) Any c (bytes_eq arg (codes "info")) _ _ (λ q e. h)
            (λ q.
              Ensures-if (OnTrue HasDir) Any c (bytes_eq arg (codes "warn")) _ _ (λ q e. h)
                (λ q.
                  Ensures-if (OnTrue HasDir) Any c (bytes_eq arg (codes "error")) _ _ (λ q e. h)
                    (λ q e. absurd cc))))

  take_option-Ensures :
      (opt : ℕ) (arg : Bytes) (c : AgentConfig)
      → HasDir c
      → Ensures (take_option F euid s opt arg c) (OnTrue HasDir) Any
  unfolding take_option
  take_option-Ensures opt arg c h =
      branch HasDir (opt == b'w') _ _
        (taken-Ensures HasDir (check_dir F euid arg s) _ _ (λ u e. inr e))
        (branch HasDir (opt == b't') _ _ (taken-Ensures HasDir (stoul arg) _ _ (λ p e. h)) (
          branch HasDir (opt == b'i') _ _ (taken-Ensures HasDir (stoul arg) _ _ (λ p e. h)) (
            branch HasDir (opt == b's') _ _ (λ e. h)
              (branch HasDir (opt == b'm') _ _ (min_free-Ensures arg c h) (
                branch HasDir (opt == b'p') _ _ (taken-Ensures HasDir (stoul arg) _ _ (λ p e. h)) (
                  branch HasDir (opt == b'l') _ _ (log_level-Ensures arg c h) (
                    branch HasDir (opt == b'c') _ _ (λ e. h)
                      (branch HasDir (opt == b'n') _ _
                        (taken-Ensures HasDir (stoul arg) _ _ (λ p e. h))
                        (branch HasDir (opt == b'N') _ _
                          (taken-Ensures HasDir (stoul arg) _ _ (λ p e. h))
                          (branch HasDir (opt == b'?') _ _ (λ e. absurd cc)
                            (λ e. absurd cc)))))))))))

  -- The directory was checked, and with a CAN interface there is a node id.
  abbrev pub IsReady : AgentConfig → Type 0
  IsReady d =
      (check_dir F euid d.workdir s ≡ ok tt)
      × (d.can_interface_enabled ≡ true → d.uavcan_node_id ≡ 0 → ⊥)
      × (d.initialized ≡ true)

  finish-Ensures : (c : AgentConfig) → HasDir c → Ensures (finish F euid s c) (OnTrue IsReady) Any
  unfolding finish apply_defaults
  finish-Ensures c h = elim (Bool-cases (is_empty c.workdir)) [
    | inl empty ↦ rw (empty, finish) (λ e. absurd cc)
    | inr full ↦ elim (Bool-cases (c.can_interface_enabled && c.uavcan_node_id == 0)) [
      | inl bad ↦ rw (full, finish, bad) (λ e. absurd cc)
      | inr good ↦
          rw (full, finish, good)
            (λ e. (
              checked h full,
              (λ on zero_. ground (arith, good, on, ==_iff c.uavcan_node_id 0)),
              refl,
            ))
    ]
  ]
    where
      checked : HasDir c → is_empty c.workdir ≡ false → check_dir F euid c.workdir s ≡ ok tt
      checked (inl e) f = absurd (no (rw e at f))
        where
          no : is_empty [] ≡ false → ⊥
          no q = cc
      checked (inr e) f = e

  option_loop-Ensures :
      (options : List (ℕ × Bytes)) (c : AgentConfig)
      → HasDir c
      → Ensures (option_loop F euid s options c) (OnTrue IsReady) Any
  unfolding option_loop
  option_loop-Ensures [] c h = finish-Ensures c h
  option_loop-Ensures ((opt, arg) ∷ options) c h =
      elim (Outcome-cases (take_option F euid s opt arg c)) [
        | inr (e, d, q) ↦ rw (q, option_loop) tt
        | inl (go, d, q) ↦ elim (Bool-cases go) [
          | inr stop ↦ rw (q, option_loop, stop) (λ e. absurd cc)
          | inl on ↦
              rw (q, option_loop, on)
                (option_loop-Ensures options d
                  (Ensures-returns (OnTrue HasDir) Any go d (take_option-Ensures opt arg c h) q on))
        ]
      ]

  -- From a configuration with no work directory, for any options: when parseOptions returns true
  -- the configuration is initialized, its work directory has passed checkDir, and with a CAN
  -- interface the node id is not 0.
  pub parse_options-IsReady :
      (options : List (ℕ × Bytes)) (c : AgentConfig)
      → c.workdir ≡ []
      → Ensures (parse_options F euid s options c) (λ go d. go ≡ true → IsReady d) (λ e d. Unit {0})
  unfolding parse_options
  parse_options-IsReady options c h = option_loop-Ensures options _ (inl h)
