-- ===== src/Recordings.antt =====
-- The recording handlers of cmd/api/api/api.go, over the recorder manager: StartRecording,
-- StopRecording, DownloadRecording, DeleteRecording and ListRecorders. What the operating system
-- answers during a request is an argument of its handler. Each request is one step here; requests
-- on one recorder that overlap are the subject of Recorder/Lifecycle.
pub mod Deletion
pub mod Starting
pub mod Serving
pub mod Examples
use popcorn_images.Base.{
  ℕ, ℤ, ◌≡◌, Option, none, some, List, [], ◌∷◌, ◌++◌, Bool, true, false, ◌&&◌, Text, Error, codes,
  Assoc, lookup, insert, leb, if◌then◌else◌, join_path,
}
use popcorn_images.ScaleToZero.{Controller}
use popcorn_images.Recorder.Arguments.{Params, Platform, merge}
use popcorn_images.Recorder.{
  Recorder, Exit, Launch, Remux, Response, finalize, is_recording, new_recorder,
}
use popcorn_images.Recorder.Session.{
  Session, Opening, Access, serves, finalizing, fails, Removal, still_finalizing, delete_failed,
  DeleteError, recording, delete_file, start, stop, force_stop,
}
use popcorn_images.Recorder.Manager.{get_recorder, register, deregister, list_active}

pub record Service (W : Type 0) : Type 0 where
  pub recorders : Assoc Recorder
  pub ctl : W

abbrev pub default_recorder_id : Text
default_recorder_id = codes "default"

-- The id of a request body or query, if it is there and not empty.
unfoldable pub recorder_id : Option Text → Text
recorder_id none = default_recorder_id
recorder_id (some []) = default_recorder_id
recorder_id (some (c ∷ id)) = c ∷ id

-- A start of ffmpeg as the operating system makes it.
pub record Host : Type 0 where
  pub os : Platform
  pub now : ℕ
  pub launch : Launch
  pub early : Option Exit

pub data StartResponse : Type 0 where
  created_201 in_progress_409 completed_400 : StartResponse
  failed_500 : Text → StartResponse
  -- the factory reads a nil output directory
  panics : StartResponse

-- StopRecording answers 200 also where stopping fails.
pub data StopResponse : Type 0 where
  stopped_200 none_active_400 : StopResponse

pub data DownloadResponse : Type 0 where
  file_200 : ℕ → ℕ → ℕ → DownloadResponse
  retry_202 deleted_400 not_found_404 : DownloadResponse
  download_failed_500 : Text → DownloadResponse

pub data DeleteResponse : Type 0 where
  deleted_200 recording_400 unknown_404 finalizing_409 delete_failed_500 : DeleteResponse

pub record RecorderInfo : Type 0 where
  pub id : Text
  pub is_recording : Bool
  pub started_at : Option ℕ
  pub finished_at : Option ℕ

-- minRecordingSizeInBytes
abbrev pub min_recording_size : ℕ
min_recording_size = 100

-- the factory of NewFFmpegRecorderFactory
unfoldable pub factory : Params → Text → Params → Option Recorder
factory config id overrides = elim ((merge config overrides).output_dir) [
  | none ↦ none
  | some dir ↦ some (new_recorder config id overrides (join_path dir (id ++ codes ".mp4")))
]

-- time.Time.IsZero
time_or_nil : ℕ → Option ℕ
time_or_nil t = if leb t 0 then none else some t

conflict : Option Recorder → StartResponse
conflict (some r) = if is_recording r then in_progress_409 else completed_400
conflict none = failed_500 (codes "failed to register recording")

serve : Recorder → ℕ → ℕ → ℕ → DownloadResponse
serve r size started ended =
    if is_recording r && leb size min_recording_size then retry_202 else file_200 size started ended

second_access : Recorder → Access → DownloadResponse
unfolding serve
second_access r (serves size started ended) = serve r size started ended
second_access r finalizing = download_failed_500 (codes "failed to get recording")
second_access r (fails e) = download_failed_500 (codes "failed to get recording")

first_access : Opening → Remux → Recorder → Access → DownloadResponse × Recorder
unfolding second_access
first_access again a r (serves size started ended) = (serve r size started ended, r)
first_access again a r (fails e) = (download_failed_500 (codes "failed to get recording"), r)
first_access again a r finalizing =
    let (e, r') = finalize a r in
    elim e [
      | some x ↦ (download_failed_500 (codes "failed to finalize recording"), r')
      | none ↦ (second_access r' (recording again r'), r')
    ]

-- DownloadRecording of one recorder; `again` is the second opening, after a finalization
unfoldable pub download : Opening → Opening → Remux → Recorder → DownloadResponse × Recorder
unfolding first_access
download o again a r =
    if r.deleted then (deleted_400, r) else first_access again a r (recording o r)

delete_response : Option DeleteError → DeleteResponse
delete_response none = deleted_200
delete_response (some still_finalizing) = finalizing_409
delete_response (some (delete_failed e)) = delete_failed_500

infos : List Recorder → List RecorderInfo
infos [] = []
infos (r ∷ rs) =
    record {
      id = r.id;
      is_recording = is_recording r;
      started_at = time_or_nil r.start_time;
      finished_at = time_or_nil r.end_time;
    }
    ∷ infos rs

module _ {W : Type 0} where
  put_back : Text → DownloadResponse × Recorder → Service W → DownloadResponse × Service W
  put_back key (d, r) s = (d, record s { recorders = insert key r s.recorders })

  -- DownloadRecording
  unfoldable pub download_recording :
      Option Text → Opening → Opening → Remux → Service W → DownloadResponse × Service W
  unfolding put_back
  download_recording id o again a s = elim (get_recorder (recorder_id id) s.recorders) [
    | none ↦ (not_found_404, s)
    | some r ↦ put_back (recorder_id id) (download o again a r) s
  ]

  delete_found : Text → Removal → Recorder → Service W → DeleteResponse × Service W
  unfolding delete_response
  delete_found key d r s =
      if is_recording r
      then (recording_400, s)
      else let (e, r') = delete_file d r in
        (delete_response e, record s { recorders = insert key r' s.recorders })

  -- DeleteRecording
  unfoldable pub delete_recording : Option Text → Removal → Service W → DeleteResponse × Service W
  unfolding delete_found
  delete_recording id d s = elim (get_recorder (recorder_id id) s.recorders) [
    | none ↦ (unknown_404, s)
    | some r ↦ delete_found (recorder_id id) d r s
  ]

  -- ListRecorders
  unfoldable pub list_recorders : Service W → List RecorderInfo
  unfolding infos time_or_nil
  list_recorders s = infos (list_active s.recorders)

module _ {W : Type 0} (ctrl : Controller W) where
  start_registered : Host → Recorder → Assoc Recorder → W → StartResponse × Service W
  start_registered h r recorders w =
      let (e, s) = start ctrl h.os h.now h.launch h.early (record { rec = r; ctl = w }) in
      elim e [
        | none ↦ (created_201, record { recorders = insert r.id s.rec recorders; ctl = s.ctl })
        | some x ↦ (
          failed_500 (codes "failed to start recording"),
          record { recorders = deregister s.rec recorders; ctl = s.ctl },
        )
      ]

  start_new : Host → Recorder → Service W → StartResponse × Service W
  unfolding conflict start_registered
  start_new h r s =
      let (e, recorders) = register r s.recorders in
      elim e [
        | none ↦ start_registered h r recorders s.ctl
        | some x ↦ (conflict (get_recorder r.id s.recorders), s)
      ]

  -- StartRecording
  unfoldable pub start_recording :
      Params → Option Text → Params → Host → Service W → StartResponse × Service W
  unfolding start_new
  start_recording config id overrides h s = elim (factory config (recorder_id id) overrides) [
    | none ↦ (panics, s)
    | some r ↦ start_new h r s
  ]

  stop_found : Text → Bool → List Response → Remux → Recorder → Service W → Service W
  stop_found key force rs a r s =
      let sess : Session W = record { rec = r; ctl = s.ctl } in
      let done = if force then (force_stop ctrl rs a sess).2 else (stop ctrl rs a sess).2 in
      record { recorders = insert key done.rec s.recorders; ctl = done.ctl }

  -- StopRecording
  unfoldable pub stop_recording :
      Option Text → Bool → List Response → Remux → Service W → StopResponse × Service W
  unfolding stop_found
  stop_recording id force rs a s = elim (get_recorder (recorder_id id) s.recorders) [
    | none ↦ (none_active_400, s)
    | some r ↦ (stopped_200, stop_found (recorder_id id) force rs a r s)
  ]
