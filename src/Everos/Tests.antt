-- ===== src/Everos/Tests.antt =====
-- adapters/everos-watch run on small inputs.
use nervous_bus.Prelude.{
  starts_with, ◌≡◌, refl, true, false, none, some, List, [], ◌∷◌, String, lookup, insert, one_of,
}
use nervous_bus.Everos.Files.{
  FileInfo, Change, created, updated, Event, classify, by_scope, user_file, user_daily, named,
  ends_with, last_part, event,
}
use nervous_bus.Everos.Watcher.{
  File, Surroundings, Watch, poll, walk, visit, look_at, same_sig, take_file, keep_file,
  publish_all, diff, changed, gone, node_event, old_nodes, seen_keys, sweep,
}
use nervous_bus.Everos.Delivery.{event-private, Handled, take_file-Handled}

abbrev parts : List String
parts = "studio" ∷ "p" ∷ "users" ∷ "ann" ∷ "episodes" ∷ "day.md" ∷ []

abbrev info : FileInfo
info = record {
  app_id = "studio";
  project_id = "p";
  owner_kind = "user";
  owner_id = "ann";
  kind = "episode";
  single = none;
}

abbrev around : Surroundings
around = record {
  layout = record { ignored_top = ".index" ∷ []; daily = ("episodes", "episode") ∷ [] };
  private_apps = "studio" ∷ [];
  debounce = 1;
  now = 100;
  baseline = false;
  accepts = λ n. true;
  split_key = λ k. parts;
}

abbrev file : File
file = record {
  parts = parts;
  key = "k";
  stat = some (50, 9);
  nodes = some (("n1", ("d2", "s")) ∷ ("n2", ("d1", "")) ∷ []);
}

abbrev watch : Watch
watch = record {
  state =
      ("k", record { sig = (40, 9); nodes = ("n1", ("d1", "s")) ∷ ("n0", ("d0", "")) ∷ [] }) ∷ [];
  delivered = [];
  tried = 0;
}

abbrev entries : List Event → List (Change × String)
entries [] = []
entries (e ∷ es) = (e.change, e.entry_id) ∷ entries es

classified : classify around.layout parts ≡ some info
unfolding classify by_scope user_file user_daily named ends_with starts_with last_part one_of lookup
classified = refl

polled :
    entries (poll around (file ∷ []) watch).delivered
    ≡ (updated, "n1") ∷ (created, "n2") ∷ (Change.deleted, "n0") ∷ []
unfolding poll walk visit look_at same_sig take_file keep_file publish_all diff changed gone
    node_event old_nodes seen_keys sweep classify by_scope user_file user_daily named ends_with
    starts_with last_part one_of lookup insert event
polled = refl

event-private_example :
    event ("studio" ∷ []) created info "n1" "s" ("studio" ∷ "p" ∷ "users" ∷ "ann" ∷ "episodes" ∷ [])
    ≡ event
        ("studio" ∷ [])
        created
        (record info { owner_id = "bob" })
        "n1"
        "t"
        ("studio" ∷ "p" ∷ "users" ∷ "bob" ∷ "episodes" ∷ [])
unfolding one_of
event-private_example =
    event-private ("studio" ∷ []) created info "n1" "s" "t" "ann" "bob" "studio" "p" "users" "ann"
      "bob" ("episodes" ∷ []) refl

take_file-Handled_example :
    Handled around info file
      (50, 9)
      (("n2", ("d1", "")) ∷ [])
      watch
      (take_file around info file (50, 9) (some (("n2", ("d1", "")) ∷ [])) watch)
take_file-Handled_example =
    take_file-Handled around info file (50, 9) (("n2", ("d1", "")) ∷ []) watch
