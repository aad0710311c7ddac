-- ===== src/Everos/Files.antt =====
-- adapters/everos-watch/everos_watch.py: which files hold memory, and the events on their nodes.
use mathlib.Core.List.{reverse}
use nervous_bus.Prelude.{
  starts_with, String, Bool, Option, none, some, List, [], ◌∷◌, ◌&&◌, ◌||◌, not, codes, str_eq,
  one_of, Dict, lookup, if◌then◌else◌,
}

pub record FileInfo : Type 0 where
  pub app_id : String
  pub project_id : String
  pub owner_kind : String
  pub owner_id : String
  pub kind : String
  pub single : Option String

-- A node: the digest of its content, and its session or "".
abbrev pub Node : Type 0
Node = String × String

pub data Change : Type 0 where
  created updated deleted : Change

pub record Event : Type 0 where
  pub change : Change
  pub app_id : String
  pub project_id : String
  pub owner_kind : String
  pub kind : String
  pub entry_id : String
  pub redacted : Bool
  pub owner_id : Option String
  pub session_id : Option String
  pub md_path : List String

-- `IGNORED_TOP` and `DAILY` without ".cases", which is an agent's.
pub record Layout : Type 0 where
  pub ignored_top : List String
  pub daily : Dict String

unfoldable pub ends_with : String → String → Bool
ends_with s suffix = starts_with (reverse (codes s)) (reverse (codes suffix))

unfoldable pub last_part : List String → String
last_part [] = ""
last_part (p ∷ []) = p
last_part (p ∷ q ∷ ps) = last_part (q ∷ ps)

unfoldable pub user_daily : Option String → String → String → String → Option FileInfo
user_daily none app proj owner = none
user_daily (some kind) app proj owner = some (record {
  app_id = app;
  project_id = proj;
  owner_kind = "user";
  owner_id = owner;
  kind = kind;
  single = none;
})

unfoldable pub user_file : Layout → String → String → String → List String → Option FileInfo
user_file l app proj owner (file ∷ []) =
    if str_eq file "user.md"
    then some (record {
      app_id = app;
      project_id = proj;
      owner_kind = "user";
      owner_id = owner;
      kind = "profile";
      single = some "user";
    })
    else none
user_file l app proj owner (dir ∷ file ∷ []) =
    if str_eq dir ".cases" then none else user_daily (lookup dir l.daily) app proj owner
user_file l app proj owner rest = none

unfoldable pub agent_file : String → String → String → List String → Option FileInfo
agent_file app proj owner (dir ∷ file ∷ []) =
    if str_eq dir ".cases"
    then some (record {
      app_id = app;
      project_id = proj;
      owner_kind = "agent";
      owner_id = owner;
      kind = "agent_case";
      single = none;
    })
    else none
agent_file app proj owner (dir ∷ skill ∷ file ∷ []) =
    if str_eq dir "skills" && str_eq file "SKILL.md"
    then some (record {
      app_id = app;
      project_id = proj;
      owner_kind = "agent";
      owner_id = owner;
      kind = "agent_skill";
      single = some skill;
    })
    else none
agent_file app proj owner rest = none

unfoldable pub named : String → String → String
named part dflt = if str_eq part dflt then "default" else part

unfoldable pub by_scope : Layout → String → String → String → String → List String → Option FileInfo
by_scope l app proj scope owner rest =
    if str_eq scope "users"
    then user_file l app proj owner rest
    else if str_eq scope "agents"
    then agent_file app proj owner rest
    else none

unfoldable pub classify : Layout → List String → Option FileInfo
classify l (top ∷ proj ∷ scope ∷ owner ∷ file ∷ rest) =
    if one_of top l.ignored_top || not (ends_with (last_part (file ∷ rest)) ".md")
    then none
    else by_scope l (named top "default_app") (named proj "default_project") scope owner
        (file ∷ rest)
classify l parts = none

-- `md[3] = REDACTED_SEG`
unfoldable pub redact_owner : List String → List String
redact_owner (a ∷ b ∷ c ∷ owner ∷ rest) = a ∷ b ∷ c ∷ "_redacted_" ∷ rest
redact_owner parts = parts

unfoldable pub some_text : String → Option String
some_text s = if str_eq s "" then none else some s

-- `_event`; the time of observation is left out.
unfoldable pub event : List String → Change → FileInfo → String → String → List String → Event
event private_apps change info eid session parts =
    let private = one_of info.app_id private_apps in
    record {
      change = change;
      app_id = info.app_id;
      project_id = info.project_id;
      owner_kind = info.owner_kind;
      kind = info.kind;
      entry_id = eid;
      redacted = private;
      owner_id = (if private then none else some info.owner_id);
      session_id = (if private then none else some_text session);
      md_path = (if private then redact_owner parts else parts);
    }
