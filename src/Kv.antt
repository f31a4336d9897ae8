-- ===== src/Kv.antt =====
-- internal/kv/store.go: the table and its statements. SQLite keeps times in seconds; the primary key
-- is the pair of agent and key.
use denkeeper.Prelude.{
  ℕ, suc, ◌+◌, String, Bool, true, false, not, ◌&&◌, ◌||◌, Option, none, some, List, [], ◌∷◌,
  if◌then◌else◌, ◌==◌, string_eq, ltb, leb,
}
use Prim.Native.Char.{code}
use Prim.Native.String
pub mod Counts
pub mod Locks
pub mod Quota
pub mod Store
mod Tests
pub mod Values

pub record Row : Type 0 where
  pub agent : String
  pub key : String
  pub value : String
  pub created_at : ℕ
  pub updated_at : ℕ
  pub expires_at : Option ℕ

-- len of a text, in the bytes of its UTF-8.
abbrev pub char_bytes : ℕ → ℕ
char_bytes c =
    if ltb c 0x80 then 1 else (if ltb c 0x800 then 2 else (if ltb c 0x10000 then 3 else 4))

unfoldable pub byte_length : String → ℕ
byte_length String.[] = 0
byte_length (String.◌∷◌ c s) = char_bytes (code c) + byte_length s

-- `agent_name = ? AND key = ?`
abbrev pub is_at : String → String → Row → Bool
is_at agent key r = r.agent == agent && r.key == key

-- `expires_at IS NULL OR expires_at > datetime('now')`
abbrev pub unexpired : Option ℕ → ℕ → Bool
unexpired none now = true
unexpired (some t) now = ltb now t

abbrev pub is_live : ℕ → Row → Bool
is_live now r = unexpired r.expires_at now

-- The row of a key that has not expired.
unfoldable pub select_row : String → String → ℕ → List Row → Option Row
select_row agent key now [] = none
select_row agent key now (r ∷ rows) =
    let rest = select_row agent key now rows in
    if is_at agent key r && is_live now r then some r else rest

-- `SELECT 1 FROM kv WHERE agent_name = ? AND key = ?`
unfoldable pub has_row : String → String → List Row → Bool
has_row agent key [] = false
has_row agent key (r ∷ rows) = is_at agent key r || has_row agent key rows

-- `SELECT COUNT(*) FROM kv WHERE agent_name = ?`
unfoldable pub count_rows : String → List Row → ℕ
count_rows agent [] = 0
count_rows agent (r ∷ rows) =
    let rest = count_rows agent rows in if r.agent == agent then suc rest else rest

-- INSERT with ON CONFLICT DO UPDATE
unfoldable pub upsert : Row → List Row → List Row
upsert new [] = new ∷ []
upsert new (r ∷ rows) =
    let rest = upsert new rows in
    if is_at new.agent new.key r
    then record r { value = new.value; updated_at = new.updated_at; expires_at = new.expires_at }
      ∷ rows
    else r ∷ rest

-- INSERT OR IGNORE, with the number of rows that it adds.
unfoldable pub insert_or_ignore : Row → List Row → ℕ × List Row
unfolding has_row
insert_or_ignore new rows = if has_row new.agent new.key rows then (0, rows) else (1, new ∷ rows)

-- DELETE of the rows that fail a test.
unfoldable pub keep : (Row → Bool) → List Row → List Row
keep test [] = []
keep test (r ∷ rows) = let rest = keep test rows in if test r then r ∷ rest else rest
