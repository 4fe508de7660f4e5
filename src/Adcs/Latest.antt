-- ===== src/Adcs/Latest.antt =====
-- The manager of agent/server/impl/Adcs.cpp against what it promises: each answer shows the last
-- message of its feed and the time since that came in.
use oort_agent.Base.{ℕ, ◌≡◌, refl, ap, Option, none, some, List, [], ◌∷◌, ℤ}
use oort_agent.Adaptor.{decode_acs_mode}
use oort_agent.Adcs.Numbers.{Arithmetic}
use oort_agent.Adcs.{
  Feed, Navigation, AdcsResponse, TfrsResponse, AdcsManager, convert, set_tfrs, get_tfrs, set_adcs,
  get_adcs, age_since,
}

-- What happens to the manager, each with its time: the server's thread brings messages, and the
-- handlers ask.
pub data Event (N : Arithmetic) : Type 0 where
  adcs_message : Feed N → ℕ → Event N
  tfrs_message : Navigation N → ℕ → Event N
  adcs_question : ℕ → Event N
  tfrs_question : ℕ → Event N

pub data Answer (N : Arithmetic) : Type 0 where
  adcs_answer : AdcsResponse N → Answer N
  tfrs_answer : TfrsResponse N → Answer N

module _ (N : Arithmetic) (to_integer : ℕ → ℤ) (seconds : ℤ → N.Double) where
  unfoldable pub run : List (Event N) → AdcsManager N → List (Answer N)
  unfolding set_tfrs get_tfrs set_adcs get_adcs
  run [] m = []
  run (adcs_message feed now ∷ es) m = run es (set_adcs N to_integer seconds feed now m)
  run (tfrs_message nav now ∷ es) m = run es (set_tfrs N to_integer seconds nav now m)
  run (adcs_question now ∷ es) m =
      adcs_answer (get_adcs N to_integer seconds now m).0
      ∷ run es (get_adcs N to_integer seconds now m).1
  run (tfrs_question now ∷ es) m =
      tfrs_answer (get_tfrs N to_integer seconds now m).0
      ∷ run es (get_tfrs N to_integer seconds now m).1

  module _ (start other : AdcsManager N) where
    -- The promised answers, from the last message and its time: whatever else the functions that
    -- convert a message read is that of some other manager. The controller, which nothing sets,
    -- and what is shown before the first message, are those of the start.
    unfoldable pub adcs_view : Option (Feed N × ℕ) → ℕ → AdcsResponse N
    adcs_view none now = record start.m_adcs {
      age = age_since N to_integer seconds start.m_adcs_mtime now;
    }
    adcs_view (some (feed, then_)) now = record {
      mode = decode_acs_mode feed.acs_mode_active;
      age = age_since N to_integer seconds then_ now;
      controller = start.m_adcs.controller;
      hk = convert N to_integer other.m_adcs.hk feed;
    }

    unfoldable pub tfrs_view : Option (Navigation N × ℕ) → ℕ → TfrsResponse N
    tfrs_view none now = record start.m_tfrs {
      age = age_since N to_integer seconds start.m_tfrs_mtime now;
    }
    tfrs_view (some (nav, then_)) now =
        record (set_tfrs N to_integer seconds nav then_ other).m_tfrs {
          age = age_since N to_integer seconds then_ now;
        }

    unfoldable pub promised :
        List (Event N) → Option (Feed N × ℕ) → Option (Navigation N × ℕ) → List (Answer N)
    promised [] feed nav = []
    promised (adcs_message f now ∷ es) feed nav = promised es (some (f, now)) nav
    promised (tfrs_message n now ∷ es) feed nav = promised es feed (some (n, now))
    promised (adcs_question now ∷ es) feed nav =
        adcs_answer (adcs_view feed now) ∷ promised es feed nav
    promised (tfrs_question now ∷ es) feed nav =
        tfrs_answer (tfrs_view nav now) ∷ promised es feed nav

    -- The manager shows these last messages: what it would answer at any time is what is promised,
    -- and it has kept the controller.
    record Shows (m : AdcsManager N) (feed : Option (Feed N × ℕ)) (nav : Option (Navigation N × ℕ))
        : Type 0 where
      adcs_shown : (now : ℕ) → (get_adcs N to_integer seconds now m).0 ≡ adcs_view feed now
      tfrs_shown : (now : ℕ) → (get_tfrs N to_integer seconds now m).0 ≡ tfrs_view nav now
      controller_kept : m.m_adcs.controller ≡ start.m_adcs.controller

    cons_same : {a b : Answer N} {ps qs : List (Answer N)} → a ≡ b → ps ≡ qs → a ∷ ps ≡ b ∷ qs
    cons_same p q = rw (p, q) refl

    run-promised :
        (es : List (Event N)) (m : AdcsManager N) (feed : Option (Feed N × ℕ))
        (nav : Option (Navigation N × ℕ))
        → Shows m feed nav
        → run es m ≡ promised es feed nav
    unfolding run promised set_tfrs get_tfrs set_adcs get_adcs convert adcs_view tfrs_view
    run-promised [] m feed nav s = refl
    run-promised (adcs_message f now ∷ es) m feed nav s =
        run-promised es _ (some (f, now)) nav (record {
          adcs_shown = λ t. rw s.controller_kept refl;
          tfrs_shown = s.tfrs_shown;
          controller_kept = s.controller_kept;
        })
    run-promised (tfrs_message n now ∷ es) m feed nav s =
        run-promised es _ feed (some (n, now)) (record {
          adcs_shown = s.adcs_shown;
          tfrs_shown = λ t. refl;
          controller_kept = s.controller_kept;
        })
    run-promised (adcs_question now ∷ es) m feed nav s =
        cons_same (ap adcs_answer (s.adcs_shown now)) (
          run-promised es (get_adcs N to_integer seconds now m).1 feed nav (record {
            adcs_shown = s.adcs_shown;
            tfrs_shown = s.tfrs_shown;
            controller_kept = s.controller_kept;
          }))
    run-promised (tfrs_question now ∷ es) m feed nav s =
        cons_same (ap tfrs_answer (s.tfrs_shown now)) (
          run-promised es (get_tfrs N to_integer seconds now m).1 feed nav (record {
            adcs_shown = s.adcs_shown;
            tfrs_shown = s.tfrs_shown;
            controller_kept = s.controller_kept;
          }))

    -- Started in any state, for any messages and questions in any order: every answer of the
    -- manager shows the last message of its feed, converted over the state of any other manager
    -- whatever, so that no other message and no field of the start but the controller leaves a
    -- trace, and the time since that message; before a message it shows the fields of the start,
    -- and the time since those were set.
    pub run_lem : (es : List (Event N)) → run es start ≡ promised es none none
    unfolding get_adcs get_tfrs adcs_view tfrs_view
    run_lem es =
        run-promised es start none none
          (record { adcs_shown = λ t. refl; tfrs_shown = λ t. refl; controller_kept = refl })
