-- ===== src/Watches/Requests.antt =====
-- StartFsWatch, StopFsWatch and StreamFsEvents of cmd/api/api/fs.go over the watches.
use popcorn_images.Base.{
  Option, none, some, List, [], ◌∷◌, ◌++◌, Bool, Text, Error, codes, is_empty, lookup,
  if◌then◌else◌,
}
use popcorn_images.Watches.{
  FileSystemEvent, Visit, Watch, started, stopped, add_recursive, Watches, step,
}

pub record StartRequest : Type 0 where
  pub path : Text
  pub recursive : Option Bool

-- What os.Stat answers: a path, none, or another error
pub data Found : Type 0 where
  found missing stat_failed : Found

-- What the request meets: os.Stat, fsnotify.NewWatcher, Add, a walk from the path, and the id of
-- cuid2.Generate
pub record Outside : Type 0 where
  pub stat : Text → Found
  pub new_watcher : Option Error
  pub add : Text → Option Error
  pub walk : Text → List Visit
  pub watch_id : Text

pub data StartResponse : Type 0 where
  start_201 : Text → StartResponse
  start_bad_request_400 start_not_found_404 start_internal_500 : Text → StartResponse

-- The directories that the watcher watches, or an error, behind which it is closed
unfoldable pub add_paths : Outside → Text → Bool → Option Error × List Text
unfolding add_recursive
add_paths o path recursive =
    if recursive then add_recursive o.add (o.walk path) else (o.add path, path ∷ [])

unfoldable pub is_recursive : Option Bool → Bool
is_recursive none = Bool.false
is_recursive (some b) = b

unfoldable pub start_added :
    Outside → Text → Bool → Watches → Option Error × List Text → StartResponse × Watches
start_added o path recursive ws (some e, dirs) = (start_internal_500 (codes "internal error"), ws)
start_added o path recursive ws (none, dirs) =
    (start_201 o.watch_id, step o.add ws (started o.watch_id path recursive dirs))

unfoldable pub start_watcher :
    Outside → Text → Bool → Watches → Option Error → StartResponse × Watches
unfolding start_added add_paths
start_watcher o path recursive ws (some e) = (start_internal_500 (codes "internal error"), ws)
start_watcher o path recursive ws none =
    start_added o path recursive ws (add_paths o path recursive)

unfoldable pub start_found : Outside → Text → Bool → Watches → Found → StartResponse × Watches
unfolding start_watcher
start_found o path recursive ws missing = (start_not_found_404 (codes "path not found"), ws)
start_found o path recursive ws stat_failed = (start_internal_500 (codes "unable to stat path"), ws)
start_found o path recursive ws found = start_watcher o path recursive ws o.new_watcher

-- StartFsWatch
unfoldable pub start_fs_watch : Outside → Option StartRequest → Watches → StartResponse × Watches
unfolding start_found is_recursive
start_fs_watch o none ws = (start_bad_request_400 (codes "request body required"), ws)
start_fs_watch o (some body) ws =
    if is_empty body.path
    then (start_bad_request_400 (codes "path cannot be empty"), ws)
    else start_found o body.path (is_recursive body.recursive) ws (o.stat body.path)

pub data StopResponse : Type 0 where
  stop_204 : StopResponse
  stop_not_found_404 : Text → StopResponse

-- s.watches[id]: a watch that is no longer listed is not found.
unfoldable pub is_listed : Option Watch → Bool
is_listed none = Bool.false
is_listed (some w) = w.listed

-- StopFsWatch
unfoldable pub stop_fs_watch : (Text → Option Error) → Text → Watches → StopResponse × Watches
unfolding is_listed
stop_fs_watch add id ws =
    if is_listed (lookup id ws)
    then (stop_204, step add ws (stopped id))
    else (stop_not_found_404 (codes "watch not found"), ws)

pub data StreamResponse : Type 0 where
  stream_200 : StreamResponse
  stream_not_found_404 : Text → StreamResponse

-- StreamFsEvents; its goroutine then takes the events.
unfoldable pub stream_fs_events : Text → Watches → StreamResponse
unfolding is_listed
stream_fs_events id ws =
    if is_listed (lookup id ws) then stream_200 else stream_not_found_404 (codes "watch not found")

-- The text of an event in the stream, with json.Marshal as an argument
unfoldable pub sse : (FileSystemEvent → Text) → FileSystemEvent → Text
sse marshal e = codes "data: " ++ (marshal e ++ codes "\n\n")
