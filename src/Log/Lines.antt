-- ===== src/Log/Lines.antt =====
-- The parameters of a log message (agent/server/impl/Log.cpp) stand where its question marks are.
use oort_agent.Base.{
  ◌<◌, ◌≤◌, ◌≡◌, refl, sym, ap, ◌∙◌, ◌⊎◌, inl, inr, List, [], ◌∷◌, ◌++◌, Bytes, codes, none, some,
  if◌then◌else◌, ==_iff, arith,
}
use oort_agent.Utils.Paths.Split.{Lacks}
use oort_agent.Log.{
  LogSettings, Level, rank, level_name, fill_in, log_line, with_defaults, log_defn,
}

-- In a message the text before the first question mark is copied, the first parameter stands in
-- its place, and the rest is filled in with the other parameters.
pub fill_in-append :
    (text rest p : Bytes) (params : List Bytes)
    → Lacks b'?' text
    → fill_in (text ++ b'?' ∷ rest) (p ∷ params) ≡ text ++ (p ++ fill_in rest params)
unfolding fill_in
fill_in-append [] rest p params h = refl
fill_in-append (c ∷ text) rest p params h =
    ground (arith, ==_iff c b'?', fill_in-append text rest p params h.1, h.0)

-- With no question mark, or with no parameter left, the text is copied.
pub fill_in_rest :
    (text : Bytes) (params : List Bytes)
    → (params ≡ []) ⊎ Lacks b'?' text
    → fill_in text params ≡ text
unfolding fill_in
fill_in_rest [] params h = refl
fill_in_rest (c ∷ text) [] h = refl
fill_in_rest (c ∷ text) (p ∷ params) (inl e) = absurd cc
fill_in_rest (c ∷ text) (p ∷ params) (inr h) =
    ground (arith, ==_iff c b'?', fill_in_rest text (p ∷ params) (inr h.1), h.0)

-- The text of a message whose pieces are separated by question marks.
abbrev pub asked : Bytes → List Bytes → Bytes
asked text [] = text
asked text (t ∷ pieces) = text ++ b'?' ∷ asked t pieces

-- The pieces, with a parameter between two of them as long as there are parameters and a question
-- mark from there on.
unfoldable pub weave : Bytes → List Bytes → List Bytes → Bytes
weave text [] params = text
weave text (t ∷ pieces) [] = text ++ b'?' ∷ weave t pieces []
weave text (t ∷ pieces) (p ∷ params) = text ++ (p ++ weave t pieces params)

abbrev pub AllLack : Bytes → List Bytes → Type 0
AllLack text [] = Lacks b'?' text
AllLack text (t ∷ pieces) = Lacks b'?' text × AllLack t pieces

weave_out : (text : Bytes) (pieces : List Bytes) → weave text pieces [] ≡ asked text pieces
unfolding weave
weave_out text [] = refl
weave_out text (t ∷ pieces) = rw (weave_out t pieces) refl

fill_in-asked :
    (text : Bytes) (pieces params : List Bytes)
    → AllLack text pieces
    → fill_in (asked text pieces) params ≡ weave text pieces params
unfolding weave
fill_in-asked text [] params h = fill_in_rest text params (inr h)
fill_in-asked text (t ∷ pieces) [] h =
    fill_in_rest (asked text (t ∷ pieces)) [] (inl refl) ∙ sym (weave_out text (t ∷ pieces))
fill_in-asked text (t ∷ pieces) (p ∷ params) h =
    fill_in-append text (asked t pieces) p params h.0
    ∙ ap (λ rest. text ++ (p ++ rest)) (fill_in-asked t pieces params h.1)

-- What a call writes: nothing below the level that is set, and else, behind the time (none for
-- syslog), the level and the thread, the pieces of the message with its parameters in the places
-- of the first six question marks, and `<>` in those for which there is no parameter.
pub log_defn_lem :
    (time desc : Bytes) (g : LogSettings) (level : Level) (text : Bytes)
    (pieces params : List Bytes)
    → AllLack text pieces
    → (rank level < rank g.l_level → log_defn time desc g level (asked text pieces) params ≡ none)
      × (rank g.l_level ≤ rank level
          → log_defn time desc g level (asked text pieces) params
            ≡ some (
                (if g.using_syslog then [] else time)
                ++ (level_name level
                    ++ (codes " ["
                        ++ (desc ++ (codes "] " ++ weave text pieces (with_defaults 6 params)))))))
unfolding log_defn log_line
log_defn_lem time desc g level text pieces params h = (
  (λ below. ground arith),
  (λ enough. rw (fill_in-asked text pieces (with_defaults 6 params) h) ground arith),
)
