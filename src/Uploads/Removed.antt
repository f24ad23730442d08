-- ===== src/Uploads/Removed.antt =====
-- UploadFiles calls os.Remove on each temporary file that it makes.
use mathlib.Core.List.{append-nil}
use popcorn_images.Base.{
  ℕ, ◌≡◌, refl, Option, none, some, List, [], ◌∷◌, ◌++◌, Bool, true, ◌||◌, Text, text_eq,
  text_eq_refl, mem, mem-append, arith, if-Holds, codes, not, is_empty,
}
use popcorn_images.Files.{
  Failure, not_exist, other, close_file, copy_to, Trace, Os, Reply, bad_request_400, internal_500,
  ran, try,
}
use popcorn_images.Uploads.{Part, Body, dest_of}
use popcorn_images.Uploads.Fields.{Field, parse_index_and_field}
use popcorn_images.Uploads.Archives.{Uploaded}
use popcorn_images.Uploads.Several.{
  PendingUpload, update, set_file, Uploads, Rest, remove_temps, leave, after_open, materialize,
  materialize_all, finish, file_part, dest_checked, dest_part, field_part, read_parts, upload_files,
}
use popcorn_images.Uploads.Tidy.{
  Effect, makes, calls_remove, neither, effect_of, by_effect, all_remove_called, Tidy, Cleared,
  no_call-Tidy, try-Tidy, ran-Tidy, created-Tidy, try_temp-Tidy,
}

-- Calls of os.Remove on more files do no harm.
Within : List Text → List Text → Type 0
Within gone more = (path : Text) → mem path gone ≡ true → mem path more ≡ true

by_effect_mono :
    (e : Effect) (k : List Text → Bool) (gone more : List Text)
    → ((g m : List Text) → Within g m → k g ≡ true → k m ≡ true)
    → Within gone more
    → by_effect e k gone ≡ true
    → by_effect e k more ≡ true
unfolding Within mem
by_effect_mono (makes path) k gone more r w h = ground (arith, w path, r gone more w, h)
by_effect_mono (calls_remove path) k gone more r w h =
    r (path ∷ gone) (path ∷ more) (λ p m. ground (arith, w p, m)) h
by_effect_mono neither k gone more r w h = r gone more w h

remove_called_mono :
    (gone more : List Text) (t : Trace)
    → Within gone more
    → all_remove_called gone t ≡ true
    → all_remove_called more t ≡ true
remove_called_mono gone more [] w h = refl
remove_called_mono gone more ((call, o) ∷ t) w h =
    by_effect_mono (effect_of call o) (λ g. all_remove_called g t) gone more
      (λ g m v. remove_called_mono g m t v) w h

added-Tidy :
    (temps : List Text) (tmp : Text) (t : Trace) → Tidy temps t → Tidy (temps ++ tmp ∷ []) t
added-Tidy temps tmp t k = record {
  safe = k.safe;
  clean =
      remove_called_mono temps (temps ++ tmp ∷ []) t
        (unfold Within in λ p m. rw (mem-append p temps (tmp ∷ []), m) refl) k.clean;
}

mem-last : (tmp : Text) (temps : List Text) → mem tmp (temps ++ tmp ∷ []) ≡ true
unfolding mem
mem-last tmp temps = ground (arith, mem-append tmp temps (tmp ∷ []), text_eq_refl tmp)

module _ (os : Os) where
  remove_temps-Tidy :
      (temps gone : List Text) (t : Trace)
      → Tidy (temps ++ gone) t
      → Tidy gone (remove_temps os temps t)
  unfolding remove_temps ran
  remove_temps-Tidy [] gone t k = k
  remove_temps-Tidy (tmp ∷ temps) gone t k =
      remove_temps-Tidy temps gone _ (record { safe = k.safe; clean = k.clean })

  leave-Tidy :
      (temps : List Text) (r : Reply Uploaded) (t : Trace)
      → Tidy temps t
      → Cleared (leave os temps r t)
  unfolding leave
  leave-Tidy temps r t k = record { tidy = remove_temps-Tidy temps [] t (rw (append-nil temps) k) }

  after_open-Tidy :
      (temps : List Text) (tmp : Text) (e : Failure) (t : Trace)
      → Tidy temps t
      → Cleared (after_open os temps tmp e t)
  unfolding after_open
  after_open-Tidy temps tmp not_exist t k =
      leave-Tidy temps _ _ (ran-Tidy os temps (close_file tmp) t refl k)
  after_open-Tidy temps tmp (other e) t k =
      leave-Tidy temps _ _ (ran-Tidy os temps (close_file tmp) t refl k)

  materialize-Tidy :
      (temps : List Text) (u : PendingUpload) (rest : Trace → Reply Uploaded × Trace) (t : Trace)
      → ((t' : Trace) → Tidy temps t' → Cleared (rest t'))
      → Tidy temps t
      → Cleared (materialize os temps u rest t)
  unfolding materialize
  materialize-Tidy temps u rest t r k =
      if-Holds Cleared (not u.file_received || is_empty u.dest_path) _ _
        (λ c. leave-Tidy temps _ t k)
        (λ c.
          try-Tidy os temps _ _ _ t refl k
            (λ t1 k1.
              try-Tidy os temps _ _ _ t1 refl k1
                (λ t2 k2.
                  try-Tidy os temps _ _ _ t2 refl k2
                    (λ t3 k3.
                      try-Tidy os temps _ _ _ t3 refl k3
                        (λ t4 k4.
                          try-Tidy os temps _ _ _ _ refl (ran-Tidy os temps _ t4 refl k4) r
                            (λ e t5 k5. leave-Tidy temps _ t5 k5))
                        (λ e t4 k4. leave-Tidy temps _ _ (
                          ran-Tidy os temps (close_file u.dest_path) _ refl
                            (ran-Tidy os temps (close_file u.temp_path) t4 refl k4))))
                    (after_open-Tidy temps u.temp_path))
                (λ e t2 k2. leave-Tidy temps _ t2 k2))
            (λ e t1 k1. leave-Tidy temps _ t1 k1))

  materialize_all-Tidy :
      (temps : List Text) (us : Uploads) (t : Trace)
      → Tidy temps t
      → Cleared (materialize_all os temps us t)
  unfolding materialize_all
  materialize_all-Tidy temps [] t k = leave-Tidy temps _ t k
  materialize_all-Tidy temps ((i, u) ∷ us) t k =
      materialize-Tidy temps u _ t (materialize_all-Tidy temps us) k

  finish-Tidy :
      (us : Uploads) (temps : List Text) (t : Trace) → Tidy temps t → Cleared (finish os us temps t)
  unfolding finish
  finish-Tidy [] temps t k = leave-Tidy temps _ t k
  finish-Tidy (u ∷ us) temps t k = materialize_all-Tidy temps (u ∷ us) t k

  -- The rest of a loop that calls os.Remove on what it is given to remove
  Removes : Rest → Type 0
  Removes rest =
      (us : Uploads) (temps : List Text) (t : Trace) → Tidy temps t → Cleared (rest us temps t)

  file_part-Tidy : (i : ℕ) (rest : Rest) → Removes rest → Removes (file_part os i rest)
  unfolding file_part Removes
  file_part-Tidy i rest r us temps t k =
      let tmp : Text = os.temp_of t in
      let more : List Text = temps ++ tmp ∷ [] in
      try_temp-Tidy os temps tmp _
        (try os (copy_to tmp)
          (λ e t'.
            leave os more (bad_request_400 (codes "failed to read upload data"))
              (ran os (close_file tmp) t'))
          (try os (close_file tmp) (λ e. leave os more (internal_500 (codes "internal error")))
            (rest (update i (set_file tmp) us) more)))
        t k
        (λ k0.
          try-Tidy os more _ _ _ _ refl
            (created-Tidy more tmp t (mem-last tmp temps) (added-Tidy temps tmp t k))
            (λ t1 k1.
              try-Tidy os more _ _ (rest (update i (set_file tmp) us) more) t1 refl k1
                (λ t2 k2. r _ more t2 k2) (λ e t2 k2. leave-Tidy more _ t2 k2))
            (λ e t1 k1. leave-Tidy more _ _ (ran-Tidy os more (close_file tmp) t1 refl k1)))
        (λ e t1 k1. leave-Tidy temps _ t1 k1)

  dest_checked-Tidy :
      (i : ℕ) (rest : Rest) (o : Option Text) → Removes rest → Removes (dest_checked os i rest o)
  unfolding dest_checked Removes
  dest_checked-Tidy i rest none r us temps t k = leave-Tidy temps _ t k
  dest_checked-Tidy i rest (some dest) r us temps t k = r _ temps t k

  dest_part-Tidy :
      (i : ℕ) (rest : Rest) (o : Option Text) → Removes rest → Removes (dest_part os i rest o)
  unfolding dest_part Removes
  dest_part-Tidy i rest none r us temps t k = leave-Tidy temps _ t k
  dest_part-Tidy i rest (some content) r us temps t k =
      dest_checked-Tidy i rest (dest_of content) r us temps t k

  field_part-Tidy :
      (part : Part) (rest : Rest) (f : Field) → Removes rest → Removes (field_part os part rest f)
  unfolding field_part Removes
  field_part-Tidy part rest none r us temps t k = leave-Tidy temps _ t k
  field_part-Tidy part rest (some (i, field)) r us temps t k =
      if-Holds Cleared (text_eq field (codes "file")) _ _
        (λ c. file_part-Tidy i rest r us temps t k)
        (λ c.
          if-Holds Cleared (text_eq field (codes "dest_path")) _ _
            (λ d. dest_part-Tidy i rest part.content r us temps t k) (λ d. leave-Tidy temps _ t k))

  read_parts-Tidy : (parts : Body) → Removes (read_parts os parts)
  unfolding read_parts Removes
  read_parts-Tidy [] us temps t k = finish-Tidy us temps t k
  read_parts-Tidy (none ∷ parts) us temps t k = leave-Tidy temps _ t k
  read_parts-Tidy (some part ∷ parts) us temps t k =
      field_part-Tidy part (read_parts os parts) (parse_index_and_field part.name)
        (read_parts-Tidy parts) us temps t k

-- Whatever a request to UploadFiles sends, and whichever calls of the system fail, os.Remove is
-- called on each temporary file that the request made, behind that; the call may itself fail.
pub upload_files-Tidy :
    (os : Os) (body : Option Body) → all_remove_called [] (upload_files os body []).1 ≡ true
unfolding upload_files Removes
upload_files-Tidy os none = refl
upload_files-Tidy os (some parts) = (read_parts-Tidy os parts [] [] [] no_call-Tidy).tidy.clean
