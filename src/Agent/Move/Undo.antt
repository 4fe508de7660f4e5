-- ===== src/Agent/Move/Undo.antt =====
-- What the part of Agent::move_file (agent/server/impl/Agent.cpp) behind the temporary directory
-- does, its `catch` block included.
use oort_agent.Base.{
  bytes_eq-false_comm, ℕ, ℤ, ◌≡◌, ◌∙◌, inl, inr, false, none, some, [], ◌++◌, Bytes, codes,
  bytes_eq, bytes_eq_refl, Option-cases, Exception, Ensures, Ensures-try_catch,
}
use oort_agent.Posix.{FileSystem, Sys-cases}
use oort_agent.Posix.Laws.{IsLawful}
use oort_agent.Utils.Paths.{dirname}
use oort_agent.Files.{FileInfo}
use oort_agent.Agent.Move.{undo, copy_over, stage}
use oort_agent.Agent.Move.Posts.{staged_name, IsApart, IsStaged, Moved, Kept, apart}
use oort_agent.Agent.Move.Staged.{IsStaged-keep, copy_into-Ensures}

module _ (F : FileSystem) (L : IsLawful F) (crc32 : ℕ → Bytes → ℕ) (src dest c : Bytes)
    (fi : FileInfo) (sd : bytes_eq src dest ≡ false) (N : IsApart F src dest) where
  abbrev Here : Bytes → F.State → Type 0
  Here = IsStaged F src dest c

  abbrev Done : Unit {0} → F.State → Type 0
  Done = Moved F crc32 src dest fi

  copy_over-Ensures :
      (s_tmpdir : Bytes) (blksize : ℤ) (s : F.State)
      → Here (staged_name s_tmpdir) s
      → bytes_eq dest (staged_name s_tmpdir) ≡ false
      → Ensures
          (copy_over F crc32 s_tmpdir (staged_name s_tmpdir) blksize dest fi s)
          Done
          (λ _. Here (staged_name s_tmpdir))
  unfolding copy_over
  copy_over-Ensures s_tmpdir blksize s st dt = elim (Sys-cases (F.mkstemp template s).0) [
    | inr (n, e) ↦
        let keeps = L.mkstemp_fails template s n e in
        rw (e, copy_over)
          (IsStaged-keep F L crc32 src dest c fi sd (staged_name s_tmpdir) s _ st (keeps _)
            (keeps src) (keeps dest))
    | inl (f, e) ↦
        let (sf, df) = N.file_apart template f s e in
        let (tf, ft) =
          apart F L (staged_name s_tmpdir) f c s st.at_tmp (L.mkstemp_new template f s e) in
        let makes = L.mkstemp_creates template f s e in
        rw (e, copy_over)
          (copy_into-Ensures F L crc32 src dest c fi sd s_tmpdir f [] blksize _
            (IsStaged-keep F L crc32 src dest c fi sd (staged_name s_tmpdir) s _ st
              (makes _ ∙ rw tf) (makes src ∙ rw sf) (makes dest ∙ rw df))
            (makes f ∙ rw (bytes_eq_refl f)) ft tf sf df dt (template, s, e))
  ]
    where
      template : Bytes
      template = dirname dest ++ codes "/file_move_XXXXXX"

  undo-Ensures :
      (s_tmpdir : Bytes) (x : Exception) (s : F.State)
      → Here (staged_name s_tmpdir) s
      → bytes_eq dest (staged_name s_tmpdir) ≡ false
      → Ensures (undo F s_tmpdir (staged_name s_tmpdir) src x s) Done (Kept F src dest c)
  unfolding undo
  undo-Ensures s_tmpdir x s st dt = elim (Option-cases (F.rename (staged_name s_tmpdir) src s).0) [
    | inl e ↦
        let moves = L.rename_moves (staged_name s_tmpdir) src c s st.at_tmp e in
        (
          L.rmdir_keeps s_tmpdir dest _ ∙ moves dest ∙ rw (ds, dt) st.no_dest,
          inl (L.rmdir_keeps s_tmpdir src _ ∙ moves src ∙ rw (bytes_eq_refl src)),
        )
    | inr (n, e) ↦
        let keeps = L.rename_fails (staged_name s_tmpdir) src s n e in
        (
          L.rmdir_keeps s_tmpdir dest _ ∙ keeps dest ∙ st.no_dest,
          inr (s_tmpdir, L.rmdir_keeps s_tmpdir _ _ ∙ keeps _ ∙ st.at_tmp),
        )
  ]
    where
      ds : bytes_eq dest src ≡ false
      ds = bytes_eq-false_comm src dest sd

  pub stage-Ensures :
      (blksize : ℤ) (s_tmpdir : Bytes) (s : F.State)
      → F.contents src s ≡ some c
      → F.contents dest s ≡ none
      → F.contents (staged_name s_tmpdir) s ≡ none
      → bytes_eq dest (staged_name s_tmpdir) ≡ false
      → Ensures (stage F crc32 blksize src dest fi s_tmpdir s) Done (Kept F src dest c)
  unfolding stage
  stage-Ensures blksize s_tmpdir s hs hd ht dt =
      elim (Option-cases (F.rename src (staged_name s_tmpdir) s).0) [
        | inr (n, e) ↦
            let keeps = L.rename_fails src (staged_name s_tmpdir) s n e in
            rw (e, stage) (keeps dest ∙ hd, inl (keeps src ∙ hs))
        | inl e ↦
            let moves = L.rename_moves src (staged_name s_tmpdir) c s hs e in
            rw (e, stage)
              (Ensures-try_catch (Kept F src dest c)
                (copy_over F crc32 s_tmpdir (staged_name s_tmpdir) blksize dest fi)
                (undo F s_tmpdir (staged_name s_tmpdir) src) Done (λ _. Here (staged_name s_tmpdir))
                _
                (copy_over-Ensures s_tmpdir blksize _
                  (record {
                    at_tmp = moves _ ∙ rw (bytes_eq_refl (staged_name s_tmpdir));
                    no_src =
                        moves src
                        ∙ rw
                            ((apart F L src (staged_name s_tmpdir) c s hs ht).0, bytes_eq_refl src);
                    no_dest = moves dest ∙ rw (dt, bytes_eq-false_comm src dest sd) hd;
                  })
                  dt)
                (λ x t st. undo-Ensures s_tmpdir x t st dt))
      ]
