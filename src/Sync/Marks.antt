-- ===== src/Sync/Marks.antt =====
-- What counting and marking do to one row of the agent's `usage_log`.
use screenguard.Prelude.{
  eq_nat, eq_string, eq_pair, ==_refl, ==_ne, ==_cases, ℕ, ◌≡◌, ◌≢◌, refl, sym, Bool, true, false,
  Option, none, some, List, [], ◌∷◌, String, ◌==◌, if◌then◌else◌, arith, Bool-cases, inl, inr, any,
  ◌||◌,
}
use screenguard.Prelude.Dict.{Dict, get, get-insert, get-cons, get-nil}
use screenguard.Agent.Tables.{UsageRow, Db}
use screenguard.Agent.Db.{mark_usage_synced, on_row}
use screenguard.Agent.State.{due_usage, get_unsynced_usage}
use screenguard.Sync.{mark_all}

abbrev pub Key : Type 0
Key = ℕ × String

abbrev pub marked : Option UsageRow → Option UsageRow
marked none = none
marked (some row) = some (record row { synced = true })

abbrev has_key : Key → List (Key × ℕ) → Bool
has_key k rows = any (λ (r : Key × ℕ). r.0 == k) rows

pub get-on_row :
    (f : UsageRow → UsageRow) (db : Db) (key : Key) (o : Option UsageRow) (k : Key)
    → key ≢ k
    → get (on_row f db key o).usage_log k ≡ get db.usage_log k
get-on_row f db key none k n = refl
get-on_row f db key (some row) k n = rw get-insert (rw (==_ne key k n) refl)

get-mark_self :
    (db : Db) (key : Key) (o : Option UsageRow)
    → get db.usage_log key ≡ o
    → get (on_row (λ row. record row { synced = true }) db key o).usage_log key ≡ marked o
get-mark_self db key none h = h
get-mark_self db key (some row) h = rw get-insert (rw (==_refl key) refl)

marked_twice : (o : Option UsageRow) → marked (marked o) ≡ marked o
marked_twice none = refl
marked_twice (some row) = refl

get-mark :
    (db : Db) (key k : Key)
    → get (mark_usage_synced db key.0 key.1).usage_log k
      ≡ (if key == k then marked (get db.usage_log k) else get db.usage_log k)
unfolding mark_usage_synced
get-mark db key k = elim (==_cases key k) [
  | inl e ↦ rw (sym e) (rw (==_refl key) (get-mark_self db key (get db.usage_log key) refl))
  | inr n ↦ rw (==_ne key k n) (get-on_row _ db key (get db.usage_log key) k n)
]

mark_either :
    (b c : Bool) (o : Option UsageRow)
    → (if b then marked (if c then marked o else o) else (if c then marked o else o))
      ≡ (if c || b then marked o else o)
mark_either false c o = ground arith
mark_either true false o = refl
mark_either true true o = marked_twice o

get-mark_all :
    (db : Db) (rows : List (Key × ℕ)) (k : Key)
    → get (mark_all db rows).usage_log k
      ≡ (if has_key k rows then marked (get db.usage_log k) else get db.usage_log k)
unfolding mark_all
get-mark_all db [] k = refl
get-mark_all db ((key, secs) ∷ rows) k =
    rw (get-mark_all (mark_usage_synced db key.0 key.1) rows k)
      (rw (get-mark db key k) (mark_either (has_key k rows) (key == k) (get db.usage_log k)))

-- A row that is not due is marked already, or missing.
not_due :
    (rows : Dict Key UsageRow) (k : Key)
    → has_key k (due_usage rows) ≡ false
    → marked (get rows k) ≡ get rows k
not_due [] k h = rw get-nil refl
not_due ((key, row) ∷ rows) k h = elim (Bool-cases row.synced) [
  | inl y ↦ rw get-cons (ground (arith, y, not_due rows k))
  | inr y ↦ rw get-cons (ground (arith, y, not_due rows k))
]

-- Marking what is due marks every row.
pub get-mark_due :
    (db : Db) (k : Key)
    → get (mark_all db (get_unsynced_usage db)).usage_log k ≡ marked (get db.usage_log k)
unfolding get_unsynced_usage
get-mark_due db k = rw get-mark_all (elim (Bool-cases (has_key k (due_usage db.usage_log))) [
  | inl y ↦ rw y refl
  | inr y ↦ rw y (sym (not_due db.usage_log k y))
])
