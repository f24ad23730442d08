-- ===== src/Recorder/Manager.antt =====
-- FFmpegManager of lib/recorder/ffmpeg.go: the recorders by their id. Go's iteration order over the
-- map is not fixed; here it is the order of the list.
use popcorn_images.Base.{
  Option, none, some, List, [], ◌∷◌, ◌++◌, Text, Error, codes, Assoc, lookup, insert, delete,
  if◌then◌else◌,
}
use popcorn_images.ScaleToZero.{Controller}
use popcorn_images.Recorder.{Recorder, Remux, Response}
use popcorn_images.Recorder.Session.{stop}

-- GetRecorder
unfoldable pub get_recorder : Text → Assoc Recorder → Option Recorder
get_recorder id recorders = lookup id recorders

-- RegisterRecorder
unfoldable pub register : Recorder → Assoc Recorder → Option Error × Assoc Recorder
register r recorders = elim (lookup r.id recorders) [
  | some other ↦
      (some (codes "recorder with id '" ++ (r.id ++ codes "' already exists")), recorders)
  | none ↦ (none, insert r.id r recorders)
]

-- DeregisterRecorder
unfoldable pub deregister : Recorder → Assoc Recorder → Assoc Recorder
deregister r recorders = delete r.id recorders

-- ListActiveRecorders
unfoldable pub list_active : Assoc Recorder → List Recorder
list_active [] = []
list_active ((id, r) ∷ rest) = if r.deleted then list_active rest else r ∷ list_active rest

module _ {W : Type 0} (ctrl : Controller W) where
  note_error : Text → Option Error → List Error → List Error
  note_error id none errs = errs
  note_error id (some e) errs =
      (codes "failed to stop recorder '" ++ (id ++ (codes "': " ++ e))) ∷ errs

  -- StopAll, with what each process and each remux does: the errors in the order of the map, the
  -- recorders and the controller
  unfoldable pub stop_all :
      (Text → List Response) → (Text → Remux) → Assoc Recorder → W → List Error × Assoc Recorder × W
  unfolding note_error
  stop_all rs a [] w = ([], [], w)
  stop_all rs a ((id, r) ∷ rest) w =
      let (sent, e, s) = stop ctrl (rs id) (a id) (record { rec = r; ctl = w }) in
      let (errs, stopped, w') = stop_all rs a rest s.ctl in
      (note_error id e errs, (id, s.rec) ∷ stopped, w')
