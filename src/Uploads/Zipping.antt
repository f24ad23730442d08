-- ===== src/Uploads/Zipping.antt =====
-- UploadZip calls os.Remove on its temporary file, and an archive writes to its destination only.
use popcorn_images.Base.{
  ◌≡◌, refl, Option, none, some, List, [], ◌∷◌, true, Text, Error, text_eq, text_eq_refl, is_empty,
  mem, is_abs, trim_space, arith, if-Holds, Bool-cases, inl, inr, ◌||◌, not, codes,
}
use popcorn_images.Archive.{Entry, FileOp, Ops, unzip}
use popcorn_images.Archive.Inside.{unzip-inside}
use popcorn_images.Files.{Trace, Os, Reply}
use popcorn_images.Uploads.{Part, Body, dest_of, check_dest}
use popcorn_images.Uploads.Archives.{
  Uploaded, Seen, nothing_seen, zip_reply, extracted, extract_zip, zip_dest, zip_dest_content,
  zip_part, zip_parts, upload_zip,
}
use popcorn_images.Uploads.Tidy.{
  Tidy, Cleared, no_call-Tidy, try-Tidy, leave_temp-Tidy, created-Tidy, try_temp-Tidy,
}

-- The destination, when there is one, is an absolute path.
Rooted : Text → Type 0
Rooted dest = (is_empty dest || is_abs dest) ≡ true

check_dest-Rooted : (dest d : Text) → check_dest dest ≡ some d → Rooted d
unfolding check_dest Rooted
check_dest-Rooted dest d h = elim (Bool-cases (is_empty dest || not (is_abs dest))) [
  | inl c ↦ ground (arith, rw (check_dest, c) at h)
  | inr c ↦ ground (arith, c, rw (check_dest, c) at h)
]

module _ (os : Os) (answers : Ops → FileOp → Option Error) (archive : Option (List Entry))
    (tmp : Text) where
  extracted-Tidy :
      (dest : Text) (t : Trace)
      → is_abs dest ≡ true
      → Tidy (tmp ∷ []) t
      → Cleared (extracted os tmp dest (unzip answers archive dest []) t)
  unfolding extracted
  extracted-Tidy dest t a k =
      leave_temp-Tidy os tmp (zip_reply (unzip answers archive dest []).0) _ (record {
        safe = rw (a, unzip-inside answers dest archive (unfold is_abs in a)) k.safe;
        clean = k.clean;
      })

  extract_zip-Tidy :
      (seen : Seen) (t : Trace)
      → Rooted seen.dest_path
      → Tidy (tmp ∷ []) t
      → Cleared (extract_zip os answers archive tmp seen t)
  unfolding extract_zip
  extract_zip-Tidy seen t d k =
      if-Holds Cleared (not seen.received || is_empty seen.dest_path) _ _
        (λ c. leave_temp-Tidy os tmp _ t k)
        (λ c.
          try-Tidy os (tmp ∷ []) _ _ _ t refl k
            (λ t1 k1.
              try-Tidy os (tmp ∷ []) _ _ _ t1 refl k1
                (λ t2 k2.
                  extracted-Tidy seen.dest_path t2 (unfold Rooted in ground (arith, c, d)) k2)
                (λ e t2 k2. leave_temp-Tidy os tmp _ t2 k2))
            (λ e t1 k1. leave_temp-Tidy os tmp _ t1 k1))

  zip_dest-Tidy :
      (rest : Seen → Trace → Reply Uploaded × Trace) (seen : Seen) (dest content : Text)
      (o : Option Text) (t : Trace)
      → check_dest dest ≡ o
      → ((seen' : Seen) (t' : Trace)
          → Rooted seen'.dest_path
          → Tidy (tmp ∷ []) t'
          → Cleared (rest seen' t'))
      → Tidy (tmp ∷ []) t
      → Cleared (zip_dest os tmp rest seen o t)
  unfolding zip_dest
  zip_dest-Tidy rest seen dest content none t e r k = leave_temp-Tidy os tmp _ t k
  zip_dest-Tidy rest seen dest content (some d) t e r k = r _ t (check_dest-Rooted dest d e) k

  zip_dest_content-Tidy :
      (rest : Seen → Trace → Reply Uploaded × Trace) (seen : Seen) (o : Option Text) (t : Trace)
      → ((seen' : Seen) (t' : Trace)
          → Rooted seen'.dest_path
          → Tidy (tmp ∷ []) t'
          → Cleared (rest seen' t'))
      → Tidy (tmp ∷ []) t
      → Cleared (zip_dest_content os tmp rest seen o t)
  unfolding zip_dest_content dest_of
  zip_dest_content-Tidy rest seen none t r k = leave_temp-Tidy os tmp _ t k
  zip_dest_content-Tidy rest seen (some content) t r k =
      zip_dest-Tidy rest seen (trim_space content) content _ t refl r k

  zip_part-Tidy :
      (part : Part) (rest : Seen → Trace → Reply Uploaded × Trace) (seen : Seen) (t : Trace)
      → ((seen' : Seen) (t' : Trace)
          → Rooted seen'.dest_path
          → Tidy (tmp ∷ []) t'
          → Cleared (rest seen' t'))
      → Rooted seen.dest_path
      → Tidy (tmp ∷ []) t
      → Cleared (zip_part os tmp part rest seen t)
  unfolding zip_part
  zip_part-Tidy part rest seen t r d k =
      if-Holds Cleared (text_eq part.name (codes "zip_file")) _ _
        (λ c.
          try-Tidy os (tmp ∷ []) _ _ _ t refl k (λ t1 k1. r _ t1 d k1)
            (λ e t1 k1. leave_temp-Tidy os tmp _ t1 k1))
        (λ c.
          if-Holds Cleared (text_eq part.name (codes "dest_path")) _ _
            (λ c'. zip_dest_content-Tidy rest seen part.content t r k)
            (λ c'. leave_temp-Tidy os tmp _ t k))

  zip_parts-Tidy :
      (parts : Body) (seen : Seen) (t : Trace)
      → Rooted seen.dest_path
      → Tidy (tmp ∷ []) t
      → Cleared (zip_parts os answers archive tmp parts seen t)
  unfolding zip_parts
  zip_parts-Tidy [] seen t d k = extract_zip-Tidy seen t d k
  zip_parts-Tidy (none ∷ parts) seen t d k = leave_temp-Tidy os tmp _ t k
  zip_parts-Tidy (some part ∷ parts) seen t d k =
      zip_part-Tidy part _ seen t (zip_parts-Tidy parts) d k

-- Whatever a request to UploadZip sends and the system answers: os.Remove is called on the temporary
-- file, if it was made, behind that, which may itself fail; and when the archive is extracted, it is
-- to an absolute path, and each path that is made, opened for writing or written to is this
-- directory, or starts with the cleaned directory and a slash and has no element "..".
pub upload_zip-Tidy :
    (os : Os) (answers : Ops → FileOp → Option Error) (archive : Option (List Entry))
    (body : Option Body)
    → Cleared (upload_zip os answers archive body [])
unfolding upload_zip
upload_zip-Tidy os answers archive none = record { tidy = no_call-Tidy }
upload_zip-Tidy os answers archive (some parts) =
    let tmp = os.temp_of [] in
    try_temp-Tidy os [] tmp _ (zip_parts os answers archive tmp parts nothing_seen) [] no_call-Tidy
      (λ k.
        zip_parts-Tidy os answers archive tmp parts nothing_seen _ (unfold Rooted is_empty in refl)
          (created-Tidy (tmp ∷ []) tmp [] (unfold mem in rw (text_eq_refl tmp) refl)
            (record { safe = refl; clean = refl })))
      (λ e t' k. record { tidy = k })
