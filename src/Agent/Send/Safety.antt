-- ===== src/Agent/Send/Safety.antt =====
-- Whatever Agent::send_file (agent/server/impl/Agent.cpp) answers, the file is not lost.
use oort_agent.Base.{
  last_of, last_of-append, ℕ, ◌≡◌, ap, ◌∙◌, ◌⊎◌, inl, inr, false, not, none, some, ◌∷◌, ◌++◌, Bytes,
  codes, bytes_eq, bytes_eq-false, Exception, is_runtime_error, ◌>>=◌, pure, Ensures, Ensures->>=,
  Ensures-if, Ensures-attempt, Ensures-try_catch, arith,
}
use mathlib.Core.List.{append_assoc}
use oort_agent.Posix.{FileSystem}
use oort_agent.Posix.Laws.{IsLawful}
use oort_agent.Utils.Crc.{get_crc}
use oort_agent.Utils.Paths.{dirname}
use oort_agent.Utils.Uuid.{mk_uuid}
use oort_agent.Utils.Response.{ResponseCode, answer, refusal}
use oort_agent.Files.{FileInfo, file_info, check_path}
use oort_agent.Agent.Move.{move_file}
use oort_agent.Agent.Move.Posts.{
  file_info_crc, unlink_other, staged_name, IsApart, LeftBehind, Moved, Settled, InPlace,
}
use oort_agent.Agent.Move.Safety.{move_file_safe}
use oort_agent.Agent.Pairs.{meta_ext, data_ext}
use oort_agent.Agent.Send.{
  SendFileRequest, Setting, check_topic, is_system_error, transfer_meta, write_meta, no_info,
  take_back, move_in, send_file,
}

-- A file in a temporary directory is no metadata file.
staged-meta : (d p : Bytes) → bytes_eq (staged_name d) (p ++ meta_ext) ≡ false
staged-meta d p = bytes_eq-false _ _ λ e. absurd (
    omega (
      arith,
      last_of-append 0 b'/' d (codes "file_move"),
      last_of-append 0 b'.' p (codes "meta.oort"),
      ap (last_of 0) e,
    ))

module _ (F : FileSystem) (L : IsLawful F) (Options : Type 0) (crc32 : ℕ → Bytes → ℕ)
    (g : Setting Options) (urand : ℕ → ℕ) (req : SendFileRequest Options) (c : Bytes) where
  abbrev pub path_of : Bytes → Bytes
  path_of ext = g.dirs.transfer_dir ++ b'/' ∷ (mk_uuid urand ++ ext)

  -- After an answer: the file has left its place, and a file with its checksum is in the transfer
  -- directory under the new id, or, if there is nothing, in a temporary file whose rename to it
  -- failed. After a refusal: it is at its place, or in a temporary directory.
  abbrev pub Sent : ResponseCode Bytes → F.State → Type 0
  Sent (answer id) t =
      (F.contents req.filepath t ≡ none)
      × ((p d : Bytes) × (F.contents p t ≡ some d)
          × (get_crc crc32 (some d) ≡ get_crc crc32 (some c))
          × ((p ≡ path_of data_ext)
              ⊎ ((F.contents (path_of data_ext) t ≡ none) × LeftBehind F (path_of data_ext) p d)))
  Sent (refusal message) t = InPlace F req.filepath c t

  abbrev pub Unsent : Exception → F.State → Type 0
  Unsent e t = InPlace F req.filepath c t

  abbrev Found : ResponseCode FileInfo → F.State → Type 0
  Found (answer fi) t = (F.contents req.filepath t ≡ some c) × (fi.crc32 ≡ get_crc crc32 (some c))
  Found (refusal message) t = F.contents req.filepath t ≡ some c

  abbrev There : Exception → F.State → Type 0
  There e t = F.contents req.filepath t ≡ some c

  write_meta-Ensures :
      (id destmeta : Bytes) (s : F.State)
      → bytes_eq req.filepath destmeta ≡ false
      → F.contents req.filepath s ≡ some c
      → Ensures (write_meta F Options crc32 g req id destmeta s) (λ fi. Found (answer fi)) There
  unfolding write_meta
  write_meta-Ensures id destmeta s n h =
      Ensures-attempt (λ fi. Found (answer fi)) There s (file_info F crc32 req.filepath) _
        (λ fi i.
          let text = g.to_json (transfer_meta F Options crc32 g req (record fi { id = id }) s) in
          let s' = (F.save destmeta text s).1 in
          let here : F.contents req.filepath s' ≡ some c =
            L.save_frame destmeta text req.filepath s n ∙ h in
          Ensures-if (λ fi. Found (answer fi)) There s' (F.save destmeta text s).0 _ _
            (λ t. (here, file_info_crc F crc32 req.filepath s fi i ∙ ap (get_crc crc32) h))
            (λ t. unlink_other F L destmeta req.filepath s' n ∙ here))
        (λ e i. h)

  unlinked :
      (s : F.State)
      → bytes_eq req.filepath (path_of meta_ext) ≡ false
      → InPlace F req.filepath c s
      → InPlace F req.filepath c (F.unlink (path_of meta_ext) s).1
  unlinked s n (inl h) = inl (unlink_other F L (path_of meta_ext) req.filepath s n ∙ h)
  unlinked s n (inr (d, h)) =
      inr (d, unlink_other F L (path_of meta_ext) (staged_name d) s not_meta ∙ h)
    where
      path_of_split : path_of meta_ext ≡ (g.dirs.transfer_dir ++ b'/' ∷ mk_uuid urand) ++ meta_ext
      path_of_split = simp append_assoc

      not_meta : bytes_eq (staged_name d) (path_of meta_ext) ≡ false
      not_meta = rw (path_of_split) (staged-meta d (g.dirs.transfer_dir ++ b'/' ∷ mk_uuid urand))

  move_in-Ensures :
      (r : ResponseCode FileInfo) (s : F.State)
      → bytes_eq req.filepath (path_of meta_ext) ≡ false
      → IsApart F req.filepath (path_of data_ext)
      → Found r s
      → Ensures
          (move_in F Options crc32 g req.filepath
            (path_of data_ext)
            (mk_uuid urand)
            (path_of meta_ext)
            r
            s)
          Sent
          Unsent
  unfolding move_in take_back
  move_in-Ensures (refusal message) s n apart h = inl h
  move_in-Ensures (answer fi) s n apart h =
      Ensures-try_catch Unsent
        (move_file F crc32 g.limits req.filepath (path_of data_ext) fi >>= λ u.
          pure (answer (mk_uuid urand)))
        (take_back F Options crc32 g (path_of meta_ext)) Sent
        (Settled F req.filepath (path_of data_ext) c s) s
        (Ensures->>= (Settled F req.filepath (path_of data_ext) c s)
          (move_file F crc32 g.limits req.filepath (path_of data_ext) fi s) _
          (Moved F crc32 req.filepath (path_of data_ext) fi) Sent
          (move_file_safe F L crc32 g.limits req.filepath (path_of data_ext) c fi s apart h.0)
          (λ u t m.
            let (gone, (p, d, there, crc, place)) = m in (gone, (p, d, there, crc ∙ h.1, place))))
        (λ e t k.
          Ensures-if Sent Unsent t (is_system_error e) _ _ (λ x. unlinked t n k.1) (λ x. k.1))

  -- send_file loses no file. For a readable source that is not the metadata file written and that
  -- the temporary names do not hit: after an answer the source is gone and a file with its
  -- checksum is in the transfer directory under the new id, or nothing is there and it is in a
  -- temporary file whose rename to that name failed; after a refusal or an exception the content
  -- is at its place or in a temporary directory.
  pub send_file_safe :
      (s : F.State)
      → bytes_eq req.filepath (path_of meta_ext) ≡ false
      → IsApart F req.filepath (path_of data_ext)
      → F.contents req.filepath s ≡ some c
      → Ensures (send_file F Options crc32 g urand req s) Sent Unsent
  unfolding send_file no_info
  send_file_safe s n apart h =
      Ensures-if Sent Unsent s (not (check_path req.filepath)) _ _ (λ e. inl h)
        (λ e.
          Ensures-if Sent Unsent s (not (check_topic g.allowed_topics req.topic)) _ _ (λ e. inl h)
            (λ e.
              Ensures-if Sent Unsent s (not (F.writable (dirname req.filepath) s)) _ _ (λ e. inl h)
                (λ e.
                  Ensures->>= Unsent _ _ Found Sent
                    (Ensures-try_catch Unsent
                      (write_meta F Options crc32 g req (mk_uuid urand) (path_of meta_ext) >>= λ fi.
                        pure (answer fi))
                      (no_info F Options crc32 g req.filepath) Found There s
                      (Ensures->>= There _ _ (λ fi. Found (answer fi)) Found
                        (write_meta-Ensures (mk_uuid urand) (path_of meta_ext) s n h) (λ fi t k. k))
                      (λ e t k.
                        Ensures-if Found Unsent t (is_runtime_error e) _ _ (λ x. k) (λ x. inl k)))
                    (λ r t k. move_in-Ensures r t n apart k))))
