-- ===== src/Recordings/Deletion.antt =====
-- A deleted recording over any further requests to the handlers.
use popcorn_images.Base.{
  ℕ, ◌≡◌, ◌≢◌, refl, Option, none, some, List, [], ◌∷◌, Bool, true, false, Text, lookup, insert,
  lookup-insert, lookup-delete, text_eq_iff, arith, inl, inr, Option-cases,
}
use popcorn_images.ScaleToZero.{Controller}
use popcorn_images.Recorder.Arguments.{Params, Platform, merge}
use popcorn_images.Recorder.{
  Command, no_command, built, process, Recorder, Exit, Launch, started, start_failed, Remux,
  Response, gone, dies, ignores, Signal, reap, finalize, run_phases, shutdown, stop_phases,
  force_phases, new_recorder,
}
use popcorn_images.Recorder.Session.{
  Session, Opening, Removal, recording, delete_file, start, begin_start, launch, check_startup,
  stop, force_stop,
}
use popcorn_images.Recorder.Manager.{get_recorder, register, deregister}
use popcorn_images.Recordings.{
  Service, Host, recorder_id, factory, start_recording, stop_recording, download,
  download_recording, delete_recording, deleted_200, deleted_400, created_201,
}

run_phases-deleted :
    (pid : ℕ) (phases : List (List Signal)) (rs : List Response) (r : Recorder)
    → (run_phases pid phases rs r).2.deleted ≡ r.deleted
unfolding run_phases reap
run_phases-deleted pid [] rs r = refl
run_phases-deleted pid (p ∷ ps) [] r = run_phases-deleted pid ps [] r
run_phases-deleted pid (p ∷ ps) (gone x ∷ rs) r = refl
run_phases-deleted pid (p ∷ ps) (dies x ∷ rs) r = refl
run_phases-deleted pid (p ∷ ps) (ignores ∷ rs) r = run_phases-deleted pid ps rs r

shutdown-deleted :
    (phases : List (List Signal)) (rs : List Response) (r : Recorder)
    → (shutdown phases rs r).2.deleted ≡ r.deleted
unfolding shutdown
shutdown-deleted phases rs r = go r.cmd refl
  where
    go : (c : Command) → r.cmd ≡ c → (shutdown phases rs r).2.deleted ≡ r.deleted
    go no_command q = ground arith
    go (built args) q = ground arith
    go (process pid) q = ground (arith, run_phases-deleted pid phases rs r)

finalize-deleted : (a : Remux) (r : Recorder) → (finalize a r).1.deleted ≡ r.deleted
unfolding finalize
finalize-deleted a r = ground arith

download-deleted :
    (o again : Opening) (a : Remux) (r : Recorder) → (download o again a r).1.deleted ≡ r.deleted
unfolding download recording
download-deleted o again a r = ground (arith, finalize-deleted a r)

pub data Request : Type 0 where
  starts : Params → Option Text → Params → Host → Request
  stops : Option Text → Bool → List Response → Remux → Request
  downloads : Option Text → Opening → Opening → Remux → Request
  deletes : Option Text → Removal → Request

-- The recorder under an id is there and deleted.
abbrev gone_at : Option Recorder → Bool
gone_at none = false
gone_at (some r) = r.deleted

module _ {W : Type 0} (ctrl : Controller W) where
  stop-deleted :
      (rs : List Response) (a : Remux) (s : Session W)
      → ((stop ctrl rs a s).2.rec.deleted ≡ s.rec.deleted)
        × ((force_stop ctrl rs a s).2.rec.deleted ≡ s.rec.deleted)
  unfolding stop force_stop
  stop-deleted rs a s = (
    ground (
      arith,
      shutdown-deleted stop_phases rs s.rec,
      finalize-deleted a (shutdown stop_phases rs s.rec).2,
    ),
    ground (
      arith,
      shutdown-deleted force_phases rs s.rec,
      finalize-deleted a (shutdown force_phases rs s.rec).2,
    ),
  )

  begin-id :
      (os : Platform) (now : ℕ) (s : Session W) → (begin_start ctrl os now s).1.rec.id ≡ s.rec.id
  unfolding begin_start
  begin-id os now s = ground arith

  launch-id : (l : Launch) (s : Session W) → (launch ctrl l s).1.rec.id ≡ s.rec.id
  unfolding launch
  launch-id (started pid) s = refl
  launch-id (start_failed e) s = refl

  pub start-id :
      (os : Platform) (now : ℕ) (l : Launch) (early : Option Exit) (s : Session W)
      → (start ctrl os now l early s).1.rec.id ≡ s.rec.id
  unfolding start check_startup reap
  start-id os now l early s =
      ground (arith, begin-id os now s, launch-id l (begin_start ctrl os now s).1)

  pub serve_request : Service W → Request → Service W
  serve_request s (starts config id overrides h) = (start_recording ctrl config id overrides h s).1
  serve_request s (stops id force rs a) = (stop_recording ctrl id force rs a s).1
  serve_request s (downloads id o again a) = (download_recording id o again a s).1
  serve_request s (deletes id d) = (delete_recording id d s).1

  pub serve_all : Service W → List Request → Service W
  serve_all s [] = s
  serve_all s (q ∷ qs) = serve_all (serve_request s q) qs

  abbrev pub IsGone : Text → Service W → Type 0
  IsGone key s = gone_at (lookup key s.recorders) ≡ true

  stops-IsGone :
      (key : Text) (id : Option Text) (force : Bool) (rs : List Response) (a : Remux)
      (s : Service W)
      → IsGone key s
      → IsGone key (stop_recording ctrl id force rs a s).1
  unfolding stop_recording get_recorder
  stops-IsGone key id force rs a s g = elim (Option-cases (lookup (recorder_id id) s.recorders)) [
    | inl e ↦ ground arith
    | inr (r, e) ↦
        let sess : Session W = record { rec = r; ctl = s.ctl } in
        ground (
          arith,
          stop-deleted rs a sess,
          text_eq_iff (recorder_id id) key,
          lookup-insert (recorder_id id) key (stop ctrl rs a sess).2.rec s.recorders,
          lookup-insert (recorder_id id) key (force_stop ctrl rs a sess).2.rec s.recorders,
        )
  ]

  downloads-IsGone :
      (key : Text) (id : Option Text) (o again : Opening) (a : Remux) (s : Service W)
      → IsGone key s
      → IsGone key (download_recording id o again a s).1
  unfolding download_recording get_recorder
  downloads-IsGone key id o again a s g =
      elim (Option-cases (lookup (recorder_id id) s.recorders)) [
        | inl e ↦ ground arith
        | inr (r, e) ↦ ground (
          arith,
          download-deleted o again a r,
          text_eq_iff (recorder_id id) key,
          lookup-insert (recorder_id id) key (download o again a r).1 s.recorders,
        )
      ]

  deletes-IsGone :
      (key : Text) (id : Option Text) (d : Removal) (s : Service W)
      → IsGone key s
      → IsGone key (delete_recording id d s).1
  unfolding delete_recording get_recorder delete_file
  deletes-IsGone key id d s g = elim (Option-cases (lookup (recorder_id id) s.recorders)) [
    | inl e ↦ ground arith
    | inr (r, e) ↦ ground (
      arith,
      text_eq_iff (recorder_id id) key,
      lookup-insert (recorder_id id) key (delete_file d r).1 s.recorders,
    )
  ]

  starts-IsGone :
      (key : Text) (config : Params) (id : Option Text) (overrides : Params) (h : Host)
      (s : Service W)
      → IsGone key s
      → IsGone key (start_recording ctrl config id overrides h s).1
  unfolding start_recording register deregister
  starts-IsGone key config id overrides h s g =
      elim (Option-cases (factory config (recorder_id id) overrides)) [
        | inl e ↦ ground arith
        | inr (r, e) ↦
            let sess : Session W = record { rec = r; ctl = s.ctl } in
            let t = (start ctrl h.os h.now h.launch h.early sess).1.rec in
            ground (
              arith,
              start-id h.os h.now h.launch h.early sess,
              text_eq_iff r.id key,
              lookup-insert r.id key r s.recorders,
              lookup-insert r.id key t (insert r.id r s.recorders),
              lookup-delete r.id key (insert r.id r s.recorders),
            )
      ]

  serve-IsGone :
      (key : Text) (s : Service W) (q : Request) → IsGone key s → IsGone key (serve_request s q)
  unfolding serve_request
  serve-IsGone key s (starts config id overrides h) = starts-IsGone key config id overrides h s
  serve-IsGone key s (stops id force rs a) = stops-IsGone key id force rs a s
  serve-IsGone key s (downloads id o again a) = downloads-IsGone key id o again a s
  serve-IsGone key s (deletes id d) = deletes-IsGone key id d s

  serve_all-IsGone :
      (key : Text) (s : Service W) (qs : List Request) → IsGone key s → IsGone key (serve_all s qs)
  unfolding serve_all
  serve_all-IsGone key s [] g = g
  serve_all-IsGone key s (q ∷ qs) g =
      serve_all-IsGone key (serve_request s q) qs (serve-IsGone key s q g)

  delete-IsGone :
      (id : Option Text) (d : Removal) (s : Service W)
      → (delete_recording id d s).0 ≡ deleted_200
      → IsGone (recorder_id id) (delete_recording id d s).1
  unfolding delete_recording get_recorder delete_file
  delete-IsGone id d s h = elim (Option-cases (lookup (recorder_id id) s.recorders)) [
    | inl e ↦ ground arith
    | inr (r, e) ↦ ground (
      arith,
      text_eq_iff (recorder_id id) (recorder_id id),
      lookup-insert (recorder_id id) (recorder_id id) (delete_file d r).1 s.recorders,
    )
  ]

  gone-download :
      (id : Option Text) (o again : Opening) (a : Remux) (s : Service W)
      → IsGone (recorder_id id) s
      → (download_recording id o again a s).0 ≡ deleted_400
  unfolding download_recording get_recorder download
  gone-download id o again a s g = ground arith

  gone-start :
      (id : Option Text) (config overrides : Params) (h : Host) (s : Service W)
      → IsGone (recorder_id id) s
      → ((start_recording ctrl config id overrides h s).0 ≢ created_201)
        × ((start_recording ctrl config id overrides h s).1 ≡ s)
  unfolding start_recording register get_recorder factory new_recorder
  gone-start id config overrides h s g = elim (Option-cases ((merge config overrides).output_dir)) [
    | inl e ↦ (ground arith, ground arith)
    | inr (dir, e) ↦ (ground arith, ground arith)
  ]

  -- Once a request to delete a recording is answered by 200, then after any further requests, for
  -- this or other ids: a download under its id is answered by 400 as deleted, and a request to
  -- start a recording under its id does not start one and changes nothing.
  pub deleted_for_good :
      (id : Option Text) (d : Removal) (s : Service W) (qs : List Request) (o again : Opening)
      (a : Remux) (config overrides : Params) (h : Host)
      → (delete_recording id d s).0 ≡ deleted_200
      → let s' = serve_all (delete_recording id d s).1 qs in
        ((download_recording id o again a s').0 ≡ deleted_400)
        × ((start_recording ctrl config id overrides h s').0 ≢ created_201)
        × ((start_recording ctrl config id overrides h s').1 ≡ s')
  deleted_for_good id d s qs o again a config overrides h e =
      let s' = serve_all (delete_recording id d s).1 qs in
      let g : IsGone (recorder_id id) s' =
        serve_all-IsGone (recorder_id id) (delete_recording id d s).1 qs (delete-IsGone id d s e) in
      let q = gone-start id config overrides h s' g in (gone-download id o again a s' g, q.0, q.1)
