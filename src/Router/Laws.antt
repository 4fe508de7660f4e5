-- ===== src/Router/Laws.antt =====
-- What the documentation of onion and of POSIX regular expressions says of the patterns that
-- agent/server/router uses.
use oort_agent.Base.{◌≡◌, ◌⊎◌, true, some, List, [], ◌∷◌, Bytes}
use oort_agent.Router.{Onion, query_url, any_url}
use oort_agent.Agent.Send.{matches_topic_re}

-- Some route takes the path.
abbrev pub Covers : {A : Type 0} → Onion → Bytes → List (Bytes × A) → Type 0
Covers O path [] = ⊥
Covers O path ((pattern_, a) ∷ routes) = (O.matches pattern_ path ≡ true) ⊎ Covers O path routes

-- What stands at a route that takes the path.
abbrev pub Chosen : {A : Type 0} → Onion → Bytes → List (Bytes × A) → A → Type 0
Chosen O path [] a = ⊥
Chosen O path ((pattern_, b) ∷ routes) a =
    ((O.matches pattern_ path ≡ true) × (a ≡ b)) ⊎ Chosen O path routes a

pub record IsOnion (O : Onion) : Type 1 where
  -- If patterns match the path, the route of one of them is taken.
  pub chooses :
      {A : Type 0} (routes : List (Bytes × A)) (path : Bytes)
      → Covers O path routes
      → (a : A) × (O.choose routes path ≡ some a) × Chosen O path routes a
  -- "^.*" matches everything.
  pub any_matches : (path : Bytes) → O.matches any_url path ≡ true
  -- The group of the pattern for queries is made of its characters, one at least.
  pub group_topic :
      (path : Bytes)
      → O.matches query_url path ≡ true
      → matches_topic_re (O.group query_url path) ≡ true
