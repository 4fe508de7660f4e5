-- ===== src/Agent/Move/Staged.antt =====
-- The copy of Agent::move_file (agent/server/impl/Agent.cpp) across devices, from the temporary
-- directory on: where the content of the file is after each part.
use oort_agent.Base.{
  ℕ, ℤ, pos, negsuc, ◌≡◌, refl, sym, ◌∙◌, inl, inr, true, false, some, Bytes, bytes_eq, bytes_eq→eq,
  bytes_eq_refl, length, Option-cases, ok, Ensures, Ensures-attempt, Ensures-if, ap,
}
use oort_agent.Posix.{FileSystem}
use oort_agent.Posix.Laws.{IsLawful}
use oort_agent.Utils.Crc.{get_crc}
use oort_agent.Files.{FileInfo, file_info}
use oort_agent.Agent.Move.{copy_blocks, commit, copy_into}
use oort_agent.Agent.Move.Posts.{
  staged_name, IsStaged, IsTemporary, Moved, file_info_crc, apart, unlink_other, copy_blocks_other,
  copy_blocks_readable,
}

module _ (F : FileSystem) (L : IsLawful F) (crc32 : ℕ → Bytes → ℕ) (src dest c : Bytes)
    (fi : FileInfo) (sd : bytes_eq src dest ≡ false) where
  abbrev Here : Bytes → F.State → Type 0
  Here = IsStaged F src dest c

  abbrev Done : Unit {0} → F.State → Type 0
  Done = Moved F crc32 src dest fi

  -- The three calls that end the copy.
  finish :
      (f tmp d s_tmpdir : Bytes) (s : F.State)
      → Here tmp s
      → F.contents f s ≡ some d
      → get_crc crc32 (some d) ≡ fi.crc32
      → bytes_eq f tmp ≡ false
      → bytes_eq src f ≡ false
      → bytes_eq dest f ≡ false
      → bytes_eq dest tmp ≡ false
      → IsTemporary F f
      → Done tt (F.rmdir s_tmpdir (F.unlink tmp (F.rename f dest s).1).1).1
  finish f tmp d s_tmpdir s st hf hc ft sf df dt made = elim (Option-cases (F.rename f dest s).0) [
    | inl e ↦
        let moves = L.rename_moves f dest d s hf e in
        (
          after src src_tmp ∙ moves src ∙ rw (sd, sf) st.no_src,
          (dest, d, after dest dt ∙ moves dest ∙ rw (bytes_eq_refl dest), hc, inl refl),
        )
    | inr (n, e) ↦
        let keeps = L.rename_fails f dest s n e in
        (
          after src src_tmp ∙ keeps src ∙ st.no_src,
          (
            f,
            d,
            after f ft ∙ keeps f ∙ hf,
            hc,
            inr (after dest dt ∙ keeps dest ∙ st.no_dest, (made, (s, n, hf, e))),
          ),
        )
  ]
    where
      src_tmp : bytes_eq src tmp ≡ false
      src_tmp = (apart F L tmp src c s st.at_tmp st.no_src).1

      after :
          (q : Bytes)
          → bytes_eq q tmp ≡ false
          → F.contents q (F.rmdir s_tmpdir (F.unlink tmp (F.rename f dest s).1).1).1
            ≡ F.contents q (F.rename f dest s).1
      after q h = L.rmdir_keeps s_tmpdir q _ ∙ unlink_other F L tmp q _ h

  commit-Ensures :
      (s_tmpdir f d : Bytes) (s : F.State)
      → Here (staged_name s_tmpdir) s
      → F.contents f s ≡ some d
      → bytes_eq f (staged_name s_tmpdir) ≡ false
      → bytes_eq src f ≡ false
      → bytes_eq dest f ≡ false
      → bytes_eq dest (staged_name s_tmpdir) ≡ false
      → IsTemporary F f
      → Ensures
          (commit F crc32 s_tmpdir (staged_name s_tmpdir) f dest fi s)
          Done
          (λ _. Here (staged_name s_tmpdir))
  unfolding commit
  commit-Ensures s_tmpdir f d s st hf ft sf df dt made =
      Ensures-attempt Done (λ _. Here (staged_name s_tmpdir)) s (file_info F crc32 f) _
        (λ i e.
          Ensures-if Done (λ _. Here (staged_name s_tmpdir)) s (bytes_eq i.crc32 fi.crc32) _ _
            (λ same.
              finish f (staged_name s_tmpdir) d s_tmpdir s st hf (sums i e same) ft sf df dt made)
            (λ differ. st))
        (λ x e. st)
    where
      sums :
          (i : FileInfo)
          → file_info F crc32 f s ≡ ok i
          → bytes_eq i.crc32 fi.crc32 ≡ true
          → get_crc crc32 (some d) ≡ fi.crc32
      sums i e same =
          ap (get_crc crc32) (sym hf) ∙ sym (file_info_crc F crc32 f s i e) ∙ bytes_eq→eq _ _ same

  -- Calls that keep the content of the three paths keep the stage.
  pub IsStaged-keep :
      (tmp : Bytes) (s t : F.State)
      → Here tmp s
      → F.contents tmp t ≡ F.contents tmp s
      → F.contents src t ≡ F.contents src s
      → F.contents dest t ≡ F.contents dest s
      → Here tmp t
  IsStaged-keep tmp s t st a b d = record {
    at_tmp = a ∙ st.at_tmp;
    no_src = b ∙ st.no_src;
    no_dest = d ∙ st.no_dest;
  }

  pub copy_into-Ensures :
      (s_tmpdir f d : Bytes) (blksize : ℤ) (s : F.State)
      → Here (staged_name s_tmpdir) s
      → F.contents f s ≡ some d
      → bytes_eq f (staged_name s_tmpdir) ≡ false
      → bytes_eq (staged_name s_tmpdir) f ≡ false
      → bytes_eq src f ≡ false
      → bytes_eq dest f ≡ false
      → bytes_eq dest (staged_name s_tmpdir) ≡ false
      → IsTemporary F f
      → Ensures
          (copy_into F crc32 s_tmpdir (staged_name s_tmpdir) blksize dest fi f s)
          Done
          (λ _. Here (staged_name s_tmpdir))
  unfolding copy_into
  copy_into-Ensures s_tmpdir f d (negsuc n) s st hf ft tf sf df dt made =
      rw (st.at_tmp, copy_into) st
  copy_into-Ensures s_tmpdir f d (pos blksize) s st hf ft tf sf df dt made =
      rw (st.at_tmp, copy_into)
        (commit-Ensures s_tmpdir f copied.0 _ staged copied.1 ft sf df dt made)
    where
      other :
          (q : Bytes)
          → bytes_eq q f ≡ false
          → F.contents q (copy_blocks F (length c) blksize f c s) ≡ F.contents q s
      other q = copy_blocks_other F L (length c) blksize f q c s

      copied : (new : Bytes) × (F.contents f (copy_blocks F (length c) blksize f c s) ≡ some new)
      copied = copy_blocks_readable F L (length c) blksize f d c s hf

      staged : Here (staged_name s_tmpdir) (copy_blocks F (length c) blksize f c s)
      staged =
          IsStaged-keep (staged_name s_tmpdir) s _ st (other _ tf) (other src sf) (other dest df)
