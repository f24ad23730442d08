-- ===== src/Process/Examples.antt =====
-- Runs of the theorems on processes at concrete spawns and events.
use popcorn_images.Base.{
  ℕ, zero, suc, ◌+◌, ◌<◌, pos, ◌≡◌, refl, none, some, List, [], ◌∷◌, true, false, Text, codes,
  lookup, mem, text_eq, arith,
}
use popcorn_images.ScaleToZero.{Controller}
use popcorn_images.Process.{Handle, StreamEvent, chunk, waiting, sending}
use popcorn_images.Process.Command.{ExecRequest, System, Cmd}
use popcorn_images.Process.Table.{
  Server, Event, spawned, read, reaped, exit_sent, retention_ended, other_arrives, run,
}
use popcorn_images.Process.Balance.{holding, run-counts}
use popcorn_images.Process.Spawning.{
  SpawnRequest, Outside, process_spawn, Outcome, process_spawn-Outcome,
}
use popcorn_images.Process.Blocking.{run-blocked}

-- A controller behind the debounced one whose calls always succeed.
abbrev quiet : Controller ℕ
quiet = record { disable = λ w. (none, w + 1); enable = λ w. (none, w + 1) }

abbrev fresh_server : Server ℕ
fresh_server = record {
  procs = [];
  handles = [];
  stz = record { inner = 0; disabled = false; active_count = 0 };
  others = 0;
}

abbrev id : Text
id = codes "5f"

abbrev events : List Event
events = spawned id 7 false ∷ other_arrives ∷ read id true (codes "hi") ∷ reaped id (pos 3) ∷ []

nothing_held : 0 < fresh_server.stz.active_count → fresh_server.stz.disabled ≡ true
nothing_held h = ground arith

run-counts_example :
    ((run quiet fresh_server events).stz.active_count
      ≡ (run quiet fresh_server events).others + holding (run quiet fresh_server events).handles)
    × (0 < (run quiet fresh_server events).stz.active_count
        → (run quiet fresh_server events).stz.disabled ≡ true)
run-counts_example = run-counts quiet fresh_server events refl refl nothing_held

abbrev running : Handle
running = record {
  pid = 7;
  exit_code = none;
  is_tty = false;
  out = [];
  done = false;
  attach_active = false;
  stz_disabled = true;
  waiter = waiting;
}

abbrev one_running : Server ℕ
one_running = record {
  procs = id ∷ [];
  handles = (id, running) ∷ [];
  stz = record { inner = 1; disabled = true; active_count = 1 };
  others = 0;
}

abbrev copies : ℕ → List StreamEvent
copies zero = []
copies (suc n) = chunk true (codes "x") ∷ copies n

abbrev ended : Handle
ended = record {
  pid = 7;
  exit_code = some (pos 0);
  is_tty = false;
  out = copies 256;
  done = false;
  attach_active = false;
  stz_disabled = true;
  waiter = sending;
}

abbrev one_ended : Server ℕ
one_ended = record {
  procs = id ∷ [];
  handles = (id, ended) ∷ [];
  stz = record { inner = 2; disabled = false; active_count = 0 };
  others = 0;
}

lists_ended : mem id one_ended.procs ≡ true
unfolding mem text_eq
lists_ended = refl

finds_ended : lookup id one_ended.handles ≡ some ended
unfolding lookup text_eq
finds_ended = refl

run-blocked_example :
    (mem id (run quiet one_ended (exit_sent id ∷ retention_ended id ∷ [])).procs ≡ true)
    × ((g : Handle) × (lookup id
            (run quiet one_ended (exit_sent id ∷ retention_ended id ∷ [])).handles
          ≡ some g)
        × (g.done ≡ false))
run-blocked_example =
    run-blocked quiet id one_ended ended (exit_sent id ∷ retention_ended id ∷ []) lists_ended
      finds_ended refl refl refl refl

abbrev linux : System
linux = record {
  getwd = codes "/";
  environ = codes "PATH=/bin" ∷ [];
  lookup_id = λ uid. some (record { uid = uid; gid = codes "100" });
  lookup_name = λ name. some (record { uid = codes "1000"; gid = codes "1000" });
}

abbrev as_kernel : ExecRequest
as_kernel = record {
  command = codes "ls";
  args = codes "-l" ∷ [];
  cwd = none;
  environment = [];
  as_user = some (codes "kernel:44");
  as_root = none;
}

abbrev ls : Cmd
ls = record {
  path = codes "ls";
  argv = codes "-l" ∷ [];
  dir = [];
  env = codes "PATH=/bin" ∷ [];
  credential = some (1000, 44);
}

abbrev starts : Outside
starts = record {
  stdout_pipe = none;
  stderr_pipe = none;
  stdin_pipe = none;
  start = λ c. none;
  new_pid = 7;
  new_id = id;
}

abbrev spawn_ls : SpawnRequest
spawn_ls = record { exec = as_kernel; allocate_tty = none; rows = none; cols = none }

nothing_found : lookup id fresh_server.handles ≡ none
unfolding lookup
nothing_found = refl

process_spawn-Outcome_example :
    Outcome quiet linux starts
      (λ pid. none)
      (process_spawn quiet linux starts (some spawn_ls) fresh_server)
      fresh_server
process_spawn-Outcome_example =
    process_spawn-Outcome quiet linux starts (λ pid. none) (some spawn_ls) fresh_server
      nothing_found
