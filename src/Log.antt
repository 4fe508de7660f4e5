-- ===== src/Log.antt =====
-- The namespace Log of agent/server/impl/Log.h and Log.cpp: the levels, the settings, and the text
-- of a message. The time's text is a parameter; the stream and syslog are only written to.
pub mod Lines
pub mod Threads
pub mod Onion
use oort_agent.Base.{
  ℕ, zero, suc, ◌+◌, Bool, true, false, not, Option, none, some, List, [], ◌∷◌, ◌++◌, Bytes, codes,
  leb, ◌==◌, if◌then◌else◌,
}

pub data Level : Type 0 where
  debug_level : Level
  info_level : Level
  warn_level : Level
  error_level : Level

-- The place in the enumeration.
abbrev pub rank : Level → ℕ
rank debug_level = 0
rank info_level = 1
rank warn_level = 2
rank error_level = 3

abbrev pub level_name : Level → Bytes
level_name debug_level = codes "debug"
level_name info_level = codes "info"
level_name warn_level = codes "warn"
level_name error_level = codes "error"

pub record LogSettings : Type 0 where
  pub l_level : Level
  pub using_syslog : Bool
  pub l_ident : Bytes

unfoldable pub set_level : Level → LogSettings → LogSettings
set_level l g = record g { l_level = l }

unfoldable pub set_out : LogSettings → LogSettings
set_out g = record g { using_syslog = false }

unfoldable pub set_syslog : Bytes → LogSettings → LogSettings
set_syslog ident g = record g { using_syslog = true; l_ident = ident }

-- `substr` between two question marks, and the parameters in their places.
unfoldable pub fill_in : Bytes → List Bytes → Bytes
fill_in [] params = []
fill_in (c ∷ msg) [] = c ∷ msg
fill_in (c ∷ msg) (p ∷ params) =
    let filled = fill_in msg params in
    let rest = fill_in msg (p ∷ params) in if c == b'?' then p ++ filled else c ∷ rest

-- What a call of `log` writes, if anything.
unfoldable pub log_line : Bytes → Bytes → LogSettings → Level → Bytes → List Bytes → Option Bytes
unfolding fill_in
log_line time thread_desc g level msg params =
    if leb (rank g.l_level) (rank level)
    then some (
        (if g.using_syslog then [] else time)
        ++ (level_name level
            ++ (codes " [" ++ (thread_desc ++ (codes "] " ++ fill_in msg params)))))
    else none

-- A parameter that a call leaves out.
abbrev pub empty_arg : Bytes
empty_arg = codes "<>"

-- The parameters of a call, made up to a number; debug, info, warn and error take no more than it.
unfoldable pub with_defaults : ℕ → List Bytes → List Bytes
with_defaults zero params = []
with_defaults (suc n) [] = empty_arg ∷ with_defaults n []
with_defaults (suc n) (p ∷ params) = p ∷ with_defaults n params

-- The four functions that LOG_DEFN defines, by their level.
unfoldable pub log_defn : Bytes → Bytes → LogSettings → Level → Bytes → List Bytes → Option Bytes
unfolding log_line with_defaults
log_defn time thread_desc g level msg params =
    log_line time thread_desc g level msg (with_defaults 6 params)
