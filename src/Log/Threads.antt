-- ===== src/Log/Threads.antt =====
-- The descriptions of threads in agent/server/impl/Log.cpp: each thread has its name, its number
-- and its description, and the count of numbers given is shared. The decimal text of an `int` is a
-- parameter.
use oort_agent.Base.{
  ℕ, suc, ◌≡◌, refl, Bool, true, false, ◌∷◌, ◌++◌, Bytes, codes, ℤ, pos, negsuc, if◌then◌else◌, [],
  ◌==◌,
}

pub record Thread : Type 0 where
  pub thread_name : Bytes
  pub thread_desc : Bytes
  pub thread_num : ℤ

abbrev pub new_thread : Thread
new_thread = record { thread_name = codes "main"; thread_desc = []; thread_num = negsuc 0 }

-- `thread_num == -1`
abbrev pub is_unnumbered : ℤ → Bool
is_unnumbered (pos n) = false
is_unnumbered (negsuc n) = n == 0

module _ (to_string : ℤ → Bytes) where
  abbrev pub described : Bytes → ℤ → Bytes
  described name num = name ++ b':' ∷ to_string num

  unfoldable pub set_thread_desc : Thread → Thread
  set_thread_desc t = record t { thread_desc = described t.thread_name t.thread_num }

  unfoldable pub set_thread_name : Bytes → Thread → Thread
  unfolding set_thread_desc
  set_thread_name name t = set_thread_desc (record t { thread_name = name })

  -- getThreadDesc: the description, the thread, and the count.
  unfoldable pub get_thread_desc : ℕ → Thread → Bytes × Thread × ℕ
  unfolding set_thread_desc
  get_thread_desc count t =
      if is_unnumbered t.thread_num
      then (let t = set_thread_desc (record t { thread_num = pos count }) in
          (t.thread_desc, t, suc count))
      else (t.thread_desc, t, count)

  -- A thread that has a number is described by its name and its number.
  abbrev pub IsDescribed : Thread → Type 0
  IsDescribed t =
      is_unnumbered t.thread_num ≡ false → t.thread_desc ≡ described t.thread_name t.thread_num

  -- Whatever was called before, a line of the log names its thread as it is called now, and its
  -- number.
  get_thread_desc_lem :
      (count : ℕ) (t : Thread)
      → IsDescribed t
      → let (desc, u, n) = get_thread_desc count t in
        (desc ≡ described u.thread_name u.thread_num)
        × IsDescribed u
        × (u.thread_name ≡ t.thread_name)
  unfolding get_thread_desc set_thread_desc
  get_thread_desc_lem count t h = go (is_unnumbered t.thread_num) h
    where
      go :
          (b : Bool)
          → (b ≡ false → t.thread_desc ≡ described t.thread_name t.thread_num)
          → let (desc, u, n) : Bytes × Thread × ℕ =
              if b
              then (let t = set_thread_desc (record t { thread_num = pos count }) in
                  (t.thread_desc, t, suc count))
              else (t.thread_desc, t, count) in
            (desc ≡ described u.thread_name u.thread_num)
            × IsDescribed u
            × (u.thread_name ≡ t.thread_name)
      go true f = (refl, λ e. refl, refl)
      go false f = (f refl, h, refl)
