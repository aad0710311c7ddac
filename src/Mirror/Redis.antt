-- ===== src/Mirror/Redis.antt =====
-- What the mirror uses of the Redis server: the commands its script and its client run.
use nervous_bus.Prelude.{ℕ, ◌+◌, ◌-◌, ◌<◌, String, Bool, true, List, ◌≡◌, ◌≢◌}

-- The type of a key.
pub data KeyType : Type 0 where
  missing stream other : KeyType

pub data Trim : Type 0 where
  min_id max_len : Trim

-- A server: its state, the commands on it, the passing of seconds, and what its documentation says of
-- them. `entries` is how often a row of fields was added to a stream, which trimming does not undo. XADD
-- adds to a stream or makes one; on a key of another type it is an error, of which nothing is said
-- here. `ttl` is the time to live of a key in seconds, 0 if it has none left or never had one.
pub record Redis : Type 1 where
  pub Db : Type 0
  pub exists_key : String → Db → Bool
  pub key_type : String → Db → KeyType
  pub xadd : String → Trim → ℕ → List (String × String) → Db → Db
  pub set_ex : String → ℕ → Db → Db
  pub later : ℕ → Db → Db
  pub entries : String → Db → ℕ
  pub ttl : String → Db → ℕ
  pub entries-xadd :
      (k : String) (t : Trim) (n : ℕ) (fs : List (String × String)) (d : Db)
      → key_type k d ≢ other
      → entries k (xadd k t n fs d) ≡ entries k d + 1
  pub entries-xadd_other :
      (j k : String) (t : Trim) (n : ℕ) (fs : List (String × String)) (d : Db)
      → j ≢ k
      → key_type k d ≢ other
      → entries j (xadd k t n fs d) ≡ entries j d
  pub key_type-xadd_other :
      (j k : String) (t : Trim) (n : ℕ) (fs : List (String × String)) (d : Db)
      → j ≢ k
      → key_type j (xadd k t n fs d) ≡ key_type j d
  pub key_type-xadd :
      (k : String) (t : Trim) (n : ℕ) (fs : List (String × String)) (d : Db)
      → key_type k d ≢ other
      → key_type k (xadd k t n fs d) ≡ stream
  pub entries-set_ex : (j k : String) (n : ℕ) (d : Db) → entries j (set_ex k n d) ≡ entries j d
  pub exists_key-ttl : (k : String) (d : Db) → 0 < ttl k d → exists_key k d ≡ true
  pub ttl-set_ex : (k : String) (n : ℕ) (d : Db) → ttl k (set_ex k n d) ≡ n
  pub ttl-set_ex_other : (j k : String) (n : ℕ) (d : Db) → j ≢ k → ttl j (set_ex k n d) ≡ ttl j d
  pub ttl-xadd :
      (j k : String) (t : Trim) (n : ℕ) (fs : List (String × String)) (d : Db)
      → key_type k d ≢ other
      → ttl j (xadd k t n fs d) ≡ ttl j d
  pub ttl-later : (k : String) (s : ℕ) (d : Db) → ttl k (later s d) ≡ ttl k d - s
