-- ===== src/Watches/Examples.antt =====
-- A watch of a directory with an event, stopped while the event waits.
use popcorn_images.Base.{
  ◌≡◌, refl, ◌≤◌, Option, none, some, List, [], ◌∷◌, true, false, codes, lookup, adjust, text_eq,
  At, arith, Text, Error, base, is_empty,
}
use popcorn_images.Watches.{
  FileSystemEvent, Op, Watch, Event, started, notified, ended, deferred, stopped, streamed, run,
  step, notify, register, forward, offer, follow, event_type, new_watch, write,
}
use popcorn_images.Watches.Soundness.{Sound}
use popcorn_images.Watches.Lifecycle.{run-Sound}
use popcorn_images.Watches.Unlisted.{deferrals}
use popcorn_images.Watches.Requests.{
  stop_fs_watch, stop_204, stop_not_found_404, stream_fs_events, stream_not_found_404, is_listed,
}
use popcorn_images.Watches.Stopping.{Ended, stop_fs_watch-for_good, stop_fs_watch-Ended}

abbrev added : Text → Option Error
added path = none

abbrev id : Text
id = codes "w1"

abbrev written : Op
written = record { created = false; written = true; removed = false; renamed = false }

abbrev before : List Event
before =
    started id (codes "/tmp/x") false (codes "/tmp/x" ∷ [])
    ∷ notified id written (codes "/tmp/x/a") false []
    ∷ []

abbrev behind : List Event
behind = streamed id ∷ deferred id ∷ deferred id ∷ stopped id ∷ deferred id ∷ []

stop_answered : (stop_fs_watch added id (run added [] before)).0 ≡ stop_204
unfolding stop_fs_watch is_listed run lookup step adjust notify register forward offer follow
    event_type text_eq
stop_answered = refl

three_steps : 3 ≤ deferrals id behind
unfolding text_eq
three_steps = omega arith

abbrev event : FileSystemEvent
event = record { kind = write; path = codes "/tmp/x/a"; name = codes "a"; is_dir = false }

abbrev written_watch : Watch
written_watch = record (new_watch (codes "/tmp/x") false (codes "/tmp/x" ∷ [])) {
  events = event ∷ [];
  offered = event ∷ [];
}

found_watch : lookup id (run added [] before) ≡ some written_watch
unfolding run lookup step adjust notify register forward offer follow event_type text_eq base
    is_empty
found_watch = refl

run-Sound_example : Sound written_watch
run-Sound_example = run-Sound added before id written_watch found_watch

stop_fs_watch-for_good_example :
    (stream_fs_events id (run added (stop_fs_watch added id (run added [] before)).1 behind)
      ≡ stream_not_found_404 (codes "watch not found"))
    × (stop_fs_watch added id (run added (stop_fs_watch added id (run added [] before)).1 behind)
        ≡ (
          stop_not_found_404 (codes "watch not found"),
          run added (stop_fs_watch added id (run added [] before)).1 behind,
        ))
stop_fs_watch-for_good_example =
    stop_fs_watch-for_good added id (run added [] before) behind stop_answered

stop_fs_watch-Ended_example :
    At Ended id (run added (stop_fs_watch added id (run added [] before)).1 (ended id ∷ behind))
stop_fs_watch-Ended_example = stop_fs_watch-Ended added id before behind stop_answered three_steps
