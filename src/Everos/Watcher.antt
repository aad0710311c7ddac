-- ===== src/Everos/Watcher.antt =====
-- adapters/everos-watch/everos_watch.py: `Watcher.poll`. Times are in one unit.
use nervous_bus.Prelude.{
  ℕ, ◌+◌, String, Bool, true, false, Option, none, some, List, [], ◌∷◌, ◌++◌, ◌&&◌, str_eq, one_of,
  ltb, ◌==◌, Dict, lookup, insert, erase, is_none, if◌then◌else◌,
}
use nervous_bus.Everos.Files.{
  FileInfo, Node, created, updated, deleted, Event, Layout, classify, event,
}

pub record FileState : Type 0 where
  pub sig : ℕ × ℕ
  pub nodes : Dict Node

-- A file that the walk yields: its parts, the key they join to, its time and size, and the nodes that
-- `parse_nodes` reads in it. Either may fail.
pub record File : Type 0 where
  pub parts : List String
  pub key : String
  pub stat : Option (ℕ × ℕ)
  pub nodes : Option (Dict Node)

-- The settings, the time, what becomes of the n-th event, and the parts of a key.
pub record Surroundings : Type 0 where
  pub layout : Layout
  pub private_apps : List String
  pub debounce : ℕ
  pub now : ℕ
  pub baseline : Bool
  pub accepts : ℕ → Bool
  pub split_key : String → List String

-- The state of the files, the events that were accepted, and how often publishing was tried.
pub record Watch : Type 0 where
  pub state : Dict FileState
  pub delivered : List Event
  pub tried : ℕ

-- `all(publish(e) for e in events)`, which stops at the first failure.
unfoldable pub publish_all : Surroundings → List Event → Watch → Bool × Watch
publish_all w [] d = (true, d)
publish_all w (e ∷ es) d =
    let on =
      publish_all w es (record d { delivered = d.delivered ++ (e ∷ []); tried = d.tried + 1 }) in
    if w.accepts d.tried then on else (false, record d { tried = d.tried + 1 })

-- The event on a node that the file holds now, against what it held.
unfoldable pub node_event :
    Surroundings → FileInfo → List String → String → Node → Option Node → List Event
node_event w info parts eid node none = event w.private_apps created info eid node.1 parts ∷ []
node_event w info parts eid node (some old) =
    if str_eq old.0 node.0 then [] else event w.private_apps updated info eid node.1 parts ∷ []

unfoldable pub changed : Surroundings → FileInfo → List String → Dict Node → Dict Node → List Event
changed w info parts prev [] = []
changed w info parts prev ((eid, node) ∷ nodes) =
    node_event w info parts eid node (lookup eid prev) ++ changed w info parts prev nodes

unfoldable pub gone : Surroundings → FileInfo → List String → Dict Node → Dict Node → List Event
gone w info parts nodes [] = []
gone w info parts nodes ((eid, node) ∷ prev) =
    let rest = gone w info parts nodes prev in
    if is_none (lookup eid nodes)
    then event w.private_apps deleted info eid node.1 parts ∷ rest
    else rest

unfoldable pub diff : Surroundings → FileInfo → List String → Dict Node → Dict Node → List Event
diff w info parts prev nodes =
    if w.baseline then [] else changed w info parts prev nodes ++ gone w info parts nodes prev

unfoldable pub keep_file : String → FileState → Bool × Watch → Watch
keep_file key s (true, d) = record d { state = insert key s d.state }
keep_file key s (false, d) = d

unfoldable pub drop_file : String → Bool × Watch → Watch
drop_file key (true, d) = record d { state = erase key d.state }
drop_file key (false, d) = d

unfoldable pub old_nodes : Option FileState → Dict Node
old_nodes none = []
old_nodes (some s) = s.nodes

unfoldable pub same_sig : ℕ × ℕ → Option FileState → Bool
same_sig sig none = false
same_sig (t, n) (some s) = t == s.sig.0 && n == s.sig.1

-- A file that was read.
unfoldable pub take_file :
    Surroundings → FileInfo → File → ℕ × ℕ → Option (Dict Node) → Watch → Watch
take_file w info f sig none d = d
take_file w info f sig (some nodes) d =
    keep_file f.key (record { sig = sig; nodes = nodes })
      (publish_all w (diff w info f.parts (old_nodes (lookup f.key d.state)) nodes) d)

-- A file is passed over when it is unchanged or still settling.
unfoldable pub look_at : Surroundings → FileInfo → File → Option (ℕ × ℕ) → Watch → Watch
look_at w info f none d = d
look_at w info f (some sig) d =
    if same_sig sig (lookup f.key d.state)
    then d
    else if ltb w.now (sig.0 + w.debounce)
    then d
    else take_file w info f sig f.nodes d

unfoldable pub visit : Surroundings → File → Option FileInfo → Watch → Watch
visit w f none d = d
visit w f (some info) d = look_at w info f f.stat d

unfoldable pub walk : Surroundings → List File → Watch → Watch
walk w [] d = d
walk w (f ∷ fs) d = walk w fs (visit w f (classify w.layout f.parts) d)

-- The keys of the files that the walk saw.
unfoldable pub seen_keys : Surroundings → List File → List String
seen_keys w [] = []
seen_keys w (f ∷ fs) =
    let rest = seen_keys w fs in if is_none (classify w.layout f.parts) then rest else f.key ∷ rest

unfoldable pub gone_events : Surroundings → Option FileInfo → List String → Dict Node → List Event
gone_events w none parts nodes = []
gone_events w (some info) parts nodes = if w.baseline then [] else gone w info parts [] nodes

unfoldable pub forget_file : Surroundings → String → Dict Node → Watch → Watch
forget_file w key nodes d =
    let parts = w.split_key key in
    drop_file key (publish_all w (gone_events w (classify w.layout parts) parts nodes) d)

-- The keys of the state that were not seen, with what the state holds of them.
unfoldable pub sweep : Surroundings → List String → Dict FileState → Watch → Watch
sweep w seen [] d = d
sweep w seen ((key, s) ∷ files) d =
    if one_of key seen
    then sweep w seen files d
    else sweep w seen files (forget_file w key s.nodes d)

unfoldable pub poll : Surroundings → List File → Watch → Watch
poll w fs d = let d' = walk w fs d in sweep w (seen_keys w fs) d'.state d'
