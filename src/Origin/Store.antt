-- ===== src/Origin/Store.antt =====
-- pkg/origin/store.go: the scripts and logs of the tests. An entry is shared: the map names it, and
-- a request handler goes on using the entry that it found after the map has dropped or replaced it.
-- So entries live on a heap that only grows, and the map holds their addresses. Each function runs
-- under its lock, so it is one step; times are nanoseconds since the zero time.
pub mod Answers
pub mod Sharing
use mecone.Prelude.{
  ℕ, ◌+◌, ◌-◌, ◌^◌, min, Bool, false, Option, none, some, List, [], ◌∷◌, ◌++◌, Str, ltb,
  if◌then◌else◌, length, get_elem?, set,
}
use mecone.Maps
use mecone.Maps.{Map, str_key}
use mecone.Protocol.{Script, LogEntry, Log}

-- maxLogEntries
abbrev pub max_log_entries : ℕ
max_log_entries = 1000

-- time.Time.Sub for a time that is not later, cut off at the greatest duration; an earlier `now`
-- gives 0 here where Go has a negative duration, which exceeds no TTL either
abbrev pub since : ℕ → ℕ → ℕ
since now t = min (now - t) (2 ^ 63 - 1)

-- type entry struct
pub record Entry : Type 0 where
  pub script : Script
  pub created : ℕ
  pub seq : ℕ
  pub log : Log

-- type store struct, with the heap that its pointers lead to
pub record Store : Type 0 where
  pub tests : Map Str ℕ
  pub heap : List Entry
  pub ttl : ℕ
  pub last_sweep : ℕ

-- func newStore
abbrev pub new_store : ℕ → Store
new_store ttl = record { tests = []; heap = []; ttl = ttl; last_sweep = 0 }

-- now.Sub(e.created) > s.ttl, of the entry at an address
unfoldable pub expired : Store → ℕ → ℕ → Bool
expired s now ref = elim (get_elem? s.heap ref) [
  | none ↦ false
  | some e ↦ ltb s.ttl (since now e.created)
]

-- the loop that deletes expired tests
unfoldable pub sweep : Store → ℕ → Map Str ℕ → Map Str ℕ
sweep s now [] = []
sweep s now ((id, ref) ∷ tests) =
    let rest = sweep s now tests in if expired s now ref then rest else (id, ref) ∷ rest

-- the sweep at the start of `put`, once a TTL has passed since the last one
unfoldable pub maybe_sweep : Store → ℕ → Store
maybe_sweep s now =
    if ltb s.ttl (since now s.last_sweep)
    then record s { tests = sweep s now s.tests; last_sweep = now }
    else s

abbrev pub fresh : Script → ℕ → Entry
fresh sc now = record { script = sc; created = now; seq = 0; log = [] }

-- func (s *store) put
unfoldable pub put : Str → Script → ℕ → Store → Store
put id sc now s =
    let s' = maybe_sweep s now in
    record s' {
      tests = Maps.insert id (length s'.heap) s'.tests;
      heap = s'.heap ++ fresh sc now ∷ [];
    }

-- func (s *store) get
unfoldable pub get : Str → Store → Option ℕ
get id s = Maps.lookup id s.tests

-- func (s *store) remove
unfoldable pub remove : Str → Store → Store
remove id s = record s { tests = Maps.delete id s.tests }

-- func (e *entry) nextSeq, of the entry at an address
unfoldable pub next_seq : ℕ → Store → Store × ℕ
next_seq ref s = elim (get_elem? s.heap ref) [
  | none ↦ (s, 0)
  | some e ↦ (record s { heap = set s.heap ref (record e { seq = e.seq + 1 }) }, e.seq + 1)
]

-- func (e *entry) record
unfoldable pub append_log : ℕ → LogEntry → Store → Store
append_log ref le s = elim (get_elem? s.heap ref) [
  | none ↦ s
  | some e ↦
      (if ltb (length e.log) max_log_entries
        then record s { heap = set s.heap ref (record e { log = e.log ++ le ∷ [] }) }
        else s)
]

-- func (e *entry) snapshot
unfoldable pub snapshot : ℕ → Store → Log
snapshot ref s = elim (get_elem? s.heap ref) [ none ↦ [] | some e ↦ e.log ]
