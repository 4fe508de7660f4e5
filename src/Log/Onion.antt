-- ===== src/Log/Onion.antt =====
-- agent/server/impl/OnionLog.cpp: the messages of the library onion in the agent's log.
-- `vsnprintf` is a parameter: its text, or nothing if it fails.
use oort_agent.Base.{◌≡◌, Option, none, some, List, [], ◌∷◌, Bytes, codes}
use mathlib.Core.List.{append-nil}
use oort_agent.Log.{
  Level, debug_level, info_level, warn_level, error_level, LogSettings, fill_in, log_line,
}

pub data OnionLevel : Type 0 where
  o_debug0 : OnionLevel
  o_debug : OnionLevel
  o_info : OnionLevel
  o_warning : OnionLevel
  o_error : OnionLevel
  o_other : OnionLevel

abbrev pub level_of : OnionLevel → Option Level
level_of o_debug0 = some debug_level
level_of o_debug = some debug_level
level_of o_info = some info_level
level_of o_warning = some warn_level
level_of o_error = some error_level
level_of o_other = none

-- The six parameters of a call with one.
abbrev pub one_param : Bytes → List Bytes
one_param buf = buf ∷ [] ∷ [] ∷ [] ∷ [] ∷ [] ∷ []

unfoldable pub agent_onion_log :
    Bytes → Bytes → LogSettings → OnionLevel → Option Bytes → Option Bytes
unfolding log_line
agent_onion_log time thread g level none = none
agent_onion_log time thread g level (some buf) = elim (level_of level) [
  | none ↦ none
  | some l ↦ log_line time thread g l (codes "?") (one_param buf)
]

-- The text of the library stands in the line as it is, even if it has question marks.
kept_whole : (buf : Bytes) → fill_in (codes "?") (one_param buf) ≡ buf
unfolding fill_in
kept_whole buf = append-nil buf
