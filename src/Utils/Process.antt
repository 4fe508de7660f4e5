-- ===== src/Utils/Process.antt =====
-- read_into_string of agent/server/impl/Utils.cpp: the output of a process, up to a limit. The
-- calls of `read` are the list of what they return: `none` for an error, and no bytes at the end
-- of the stream, where the list may stop too.
pub mod Limits
pub mod Child
use oort_agent.Base.{
  ℕ, ◌+◌, Bool, true, false, Option, none, some, List, [], ◌∷◌, ◌++◌, Bytes, length, ltb,
  if◌then◌else◌,
}

-- Whether all was read, and the output.
unfoldable pub read_into_string : ℕ → List (Option Bytes) → Bytes → Bool × Bytes
read_into_string max_output_size [] output = (true, output)
read_into_string max_output_size (none ∷ reads) output = (false, output)
read_into_string max_output_size (some [] ∷ reads) output =
    if ltb max_output_size (length output) then (false, output) else (true, output)
read_into_string max_output_size (some (b ∷ chunk) ∷ reads) output =
    let rest = read_into_string max_output_size reads (output ++ b ∷ chunk) in
    if ltb max_output_size (length output + length (b ∷ chunk)) then (false, output) else rest
