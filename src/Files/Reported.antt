-- ===== src/Files/Reported.antt =====
-- The status of a reply says what the calls of its request answered.
use popcorn_images.Base.{
  ℕ, ◌≡◌, refl, Option, none, some, is_some, List, [], ◌∷◌, Bool, true, false, ◌&&◌, Text, is_empty,
  if◌then◌else◌, sym, dir_name, codes, Bool-cases, inl, inr,
}
use popcorn_images.Files.{
  mkdir_all, chmod, Info, DirEntry, Os, Reply, done_200, created_201, bad_request_400,
  not_found_404, internal_500, failed, parse_octal, mode_or,
}
use popcorn_images.Files.Reading.{
  FileInfo, read_file, list_entries, list_or_fail, list_files, file_info, close_failed,
}
use popcorn_images.Files.Changing.{
  ModeRequest, Permissions, Move, nothing, write_file, write_mode, create_directory, create_mode,
  delete_file, delete_directory, move_path, set_file_permissions, permit, change_owner,
}
use popcorn_images.Files.Changing
use popcorn_images.Files.Requests.{
  Request, reading, listing, informing, writing, creating, deleting, deleting_directory, moving,
  permitting, status, with_status, serve, all_info, expected,
}
use popcorn_images.Files.Outcomes.{
  Reports, try-Reports, missing-Reports, failed-Reports, ran-Reports, if_ran-Reports,
}

module _ (os : Os) where
  reading-Reports : (path : Text) → Reports _ os (reading path) (read_file os path [])
  unfolding read_file status close_failed failed
  reading-Reports path = elim (Bool-cases (is_empty path)) [
    | inl h ↦ rw h (record { reported = rw h refl })
    | inr h ↦ rw h (
        try-Reports os _ (reading path) _ _ _ []
          (try-Reports os _ (reading path) _ _ _ _ (record { reported = rw h refl })
            (λ e.
              ran-Reports os _ _ _ _ _ refl (λ t'. refl)
                (failed-Reports os _ (reading path) _ (codes "unable to stat file") _ refl refl e)))
          (missing-Reports os _ (reading path) _ _ _ refl refl))
  ]

  write_mode-Reports :
      (path : Text) (mode : Option Text) (has_body : Bool) (perm : Option ℕ)
      → mode_or 0o644 mode ≡ perm
      → is_empty path ≡ false
      → has_body ≡ true
      → Reports _ os
          (writing path mode has_body)
          (write_mode os path perm ((mkdir_all (dir_name path) 0o755, none) ∷ []))
  unfolding write_mode status Changing.close_failed failed
  write_mode-Reports path mode has_body none m h b = record { reported = rw (h, b, m) refl }
  write_mode-Reports path mode has_body (some perm) m h b =
      try-Reports os _ (writing path mode has_body) _ _ _ _
        (try-Reports os _ (writing path mode has_body) _ _ _ _
          (ran-Reports os _ _ _ _ _ refl (λ t'. refl) (record { reported = rw (h, b, m) refl }))
          (λ e.
            ran-Reports os _ _ _ _ _ refl (λ t'. refl)
              (failed-Reports os _ _ _ (codes "failed to write data") _ refl refl e)))
        (failed-Reports os _ _ _ _ _ refl refl)

  writing-Reports :
      (path : Text) (mode : Option Text) (has_body : Bool)
      → Reports _ os (writing path mode has_body) (write_file os path mode has_body [])
  unfolding write_file status
  writing-Reports path mode has_body = elim (Bool-cases (is_empty path)) [
    | inl h ↦ rw h (record { reported = rw h refl })
    | inr h ↦ rw h (elim (Bool-cases has_body) [
      | inl b ↦ rw b (
          try-Reports os _ _ _ _ _ []
            (rw (sym b) (write_mode-Reports path mode has_body _ refl h b))
            (failed-Reports os _ _ _ _ _ refl refl))
      | inr b ↦ rw b (record { reported = rw h refl })
    ])
  ]

  create_mode-Reports :
      (body : ModeRequest) (perm : Option ℕ)
      → mode_or 0o755 body.mode ≡ perm
      → is_empty body.path ≡ false
      → Reports _ os (creating (some body)) (create_mode os body.path perm [])
  unfolding create_mode status
  create_mode-Reports body none m h = record { reported = rw (h, m) refl }
  create_mode-Reports body (some perm) m h =
      try-Reports os _ (creating (some body)) _ _ _ _ (record { reported = rw (h, m) refl })
        (failed-Reports os _ _ _ _ _ refl refl)

  creating-Reports :
      (body : Option ModeRequest) → Reports _ os (creating body) (create_directory os body [])
  unfolding create_directory status
  creating-Reports none = record { reported = refl }
  creating-Reports (some body) = elim (Bool-cases (is_empty body.path)) [
    | inl h ↦ rw h (record { reported = rw h refl })
    | inr h ↦ rw h (create_mode-Reports body _ refl h)
  ]

  permit-Reports :
      (body : Permissions) (perm : Option ℕ)
      → parse_octal body.mode ≡ perm
      → is_empty body.path ≡ false
      → Reports _ os (permitting (some body)) (permit os body perm [])
  unfolding permit status change_owner
  permit-Reports body none m h = record { reported = rw (h, m) refl }
  permit-Reports body (some perm) m h =
      try-Reports os _ (permitting (some body)) _ _ _ _
        (if_ran-Reports os _ (permitting (some body)) _ (done_200 nothing)
          ((chmod body.path perm, none) ∷ []) _ refl (λ t'. refl)
          (record { reported = rw (h, m) refl }))
        (missing-Reports os _ _ _ _ _ refl refl)

  permitting-Reports :
      (body : Option Permissions) → Reports _ os (permitting body) (set_file_permissions os body [])
  unfolding set_file_permissions status
  permitting-Reports none = record { reported = refl }
  permitting-Reports (some body) = elim (Bool-cases (is_empty body.path)) [
    | inl h ↦ rw h (record { reported = rw h refl })
    | inr h ↦ rw h (permit-Reports body _ refl h)
  ]

  deleting-Reports : (body : Option Text) → Reports _ os (deleting body) (delete_file os body [])
  unfolding delete_file status
  deleting-Reports none = record { reported = refl }
  deleting-Reports (some path) = elim (Bool-cases (is_empty path)) [
    | inl h ↦ rw h (record { reported = rw h refl })
    | inr h ↦ rw h (
        try-Reports os _ (deleting (some path)) _ _ _ _ (record { reported = rw h refl })
          (missing-Reports os _ _ _ _ _ refl refl))
  ]

  deleting_directory-Reports :
      (body : Option Text) → Reports _ os (deleting_directory body) (delete_directory os body [])
  unfolding delete_directory status
  deleting_directory-Reports none = record { reported = refl }
  deleting_directory-Reports (some path) = elim (Bool-cases (is_empty path)) [
    | inl h ↦ rw h (record { reported = rw h refl })
    | inr h ↦ rw h (
        try-Reports os _ (deleting_directory (some path)) _ _ _ _ (record { reported = rw h refl })
          (missing-Reports os _ _ _ _ _ refl refl))
  ]

  moving-Reports : (body : Option Move) → Reports _ os (moving body) (move_path os body [])
  unfolding move_path status
  moving-Reports none = record { reported = refl }
  moving-Reports (some body) = elim (Bool-cases (is_empty body.src_path)) [
    | inl h ↦ rw h (record { reported = rw h refl })
    | inr h ↦ rw h (elim (Bool-cases (is_empty body.dest_path)) [
      | inl d ↦ rw d (record { reported = rw (h, d) refl })
      | inr d ↦ rw d (
          try-Reports os _ (moving (some body)) _ _ _ _ (record { reported = rw (h, d) refl })
            (missing-Reports os _ _ _ _ _ refl refl))
    ])
  ]

  informing-Reports : (path : Text) → Reports _ os (informing path) (file_info os path [])
  unfolding file_info status
  informing-Reports path = elim (Bool-cases (is_empty path)) [
    | inl h ↦ rw h (record { reported = rw h refl })
    | inr h ↦ rw h (
        try-Reports os _ (informing path) _ _ _ _ (record { reported = rw h refl })
          (missing-Reports os _ _ _ _ _ refl refl))
  ]

  list_or_fail-status :
      (path : Text) (entry : DirEntry) (i : Option Info) (r : Reply (List FileInfo)) (b : Bool)
      → status r ≡ (if b then 200 else 500)
      → status (list_or_fail path entry i r) ≡ (if is_some i && b then 200 else 500)
  unfolding list_or_fail status
  list_or_fail-status path entry none r b h = refl
  list_or_fail-status path entry (some i) (done_200 list) b h = h
  list_or_fail-status path entry (some i) (created_201 list) b h = h
  list_or_fail-status path entry (some i) (bad_request_400 m) b h = h
  list_or_fail-status path entry (some i) (not_found_404 m) b h = h
  list_or_fail-status path entry (some i) (internal_500 m) b h = h

  list_entries-status :
      (path : Text) (entries : List DirEntry)
      → status (list_entries path entries) ≡ (if all_info entries then 200 else 500)
  unfolding list_entries status
  list_entries-status path [] = refl
  list_entries-status path (entry ∷ entries) =
      list_or_fail-status path entry entry.info _ _ (list_entries-status path entries)

  listing-Reports : (path : Text) → Reports _ os (listing path) (list_files os path [])
  unfolding list_files status
  listing-Reports path = elim (Bool-cases (is_empty path)) [
    | inl h ↦ rw h (record { reported = rw h refl })
    | inr h ↦ rw h (
        try-Reports os _ (listing path) _ _ _ _
          (record { reported = rw h (list_entries-status path _) })
          (missing-Reports os _ _ _ _ _ refl refl))
  ]

-- Whatever the operating system answers, the status of each file request is the one that its calls
-- call for: 404 or 500 as the one call that failed has it, an os.ErrNotExist of a call on the
-- path itself being 404; with no failure 400 if the request lacks something or has a mode that is
-- not octal, and else 200 or 201, where a listing also needs the Info of each entry.
pub serve-expected :
    (os : Os) (request : Request) → (serve os request).0 ≡ expected os request (serve os request).1
unfolding serve with_status
serve-expected os (reading path) = (reading-Reports os path).reported
serve-expected os (listing path) = (listing-Reports os path).reported
serve-expected os (informing path) = (informing-Reports os path).reported
serve-expected os (writing path mode has_body) = (writing-Reports os path mode has_body).reported
serve-expected os (creating body) = (creating-Reports os body).reported
serve-expected os (deleting body) = (deleting-Reports os body).reported
serve-expected os (deleting_directory body) = (deleting_directory-Reports os body).reported
serve-expected os (moving body) = (moving-Reports os body).reported
serve-expected os (permitting body) = (permitting-Reports os body).reported
