-- ===== src/Recordings/Serving.antt =====
-- When the file of a recording is served.
use popcorn_images.Base.{◌<◌, ◌≡◌, true, false, arith}
use popcorn_images.Recorder.{Recorder, Remux, finalize, is_recording, is_done}
use popcorn_images.Recorder.Session.{Opening, open_failed, stat_failed, file, recording}
use popcorn_images.Recordings.{
  DownloadResponse, file_200, retry_202, deleted_400, not_found_404, download_failed_500, download,
  min_recording_size,
}

-- What the answer to a download tells of the recorder before and after it.
abbrev pub Served : DownloadResponse → Recorder → Recorder → Type 0
Served (file_200 size started ended) r r' =
    (r.deleted ≡ false)
    × (is_done r' ≡ true → r'.finalize_complete ≡ true)
    × (is_recording r' ≡ true → min_recording_size < size)
    × (started ≡ r.start_time)
    × (ended ≡ r.end_time)
Served retry_202 r r' = (r.deleted ≡ false) × (is_recording r ≡ true) × (r' ≡ r)
Served deleted_400 r r' = (r.deleted ≡ true) × (r' ≡ r)
Served not_found_404 r r' = ⊥
Served (download_failed_500 m) r r' = r.deleted ≡ false

-- What every download tells. A file is served only of a recording that is not deleted, and that
-- is either still going on, with more than 100 bytes, or finalized; its times are the recorder's.
-- The client is told to retry only while the recording goes on; it is told that the recording is
-- deleted exactly if it is.
pub download-Served :
    (o again : Opening) (a : Remux) (r : Recorder)
    → Served (download o again a r).0 r (download o again a r).1
unfolding download recording finalize
download-Served (open_failed e) again a r = ground arith
download-Served (stat_failed e) again a r = ground arith
download-Served (file size) (open_failed e) a r = ground arith
download-Served (file size) (stat_failed e) a r = ground arith
download-Served (file size) (file size') a r = ground arith
