-- ===== src/Sync/Midnight.antt =====
-- The reset of the agent's day at midnight leaves the other days' rows alone.
use screenguard.Prelude.{
  eq_nat, eq_string, eq_pair, ℕ, ◌≡◌, ◌≢◌, refl, ◌∙◌, ap, Bool, Option, List, [], ◌∷◌, String,
}
use screenguard.Prelude.Dict.{get}
use screenguard.Agent.Tables.{Db}
use screenguard.Agent.Db.{reset_usage_for_date}
use screenguard.Agent.Armed.{reset_all}
use screenguard.Server.Db.{Db as ServerDb}
use screenguard.Sync.Marks.{Key, get-on_row}
use screenguard.Sync.Stored.{IsTidy, on_row-IsTidy}
use screenguard.Sync.Totals.{IsLinked}

pub row-reset :
    (db : Db) (yesterday : String) (uids : List ℕ) (uid : ℕ) (date : String)
    → yesterday ≢ date
    → get (reset_all db yesterday uids).usage_log (uid, date) ≡ get db.usage_log (uid, date)
unfolding reset_usage_for_date
row-reset db yesterday [] uid date n = refl
row-reset db yesterday (v ∷ uids) uid date n =
    row-reset (reset_usage_for_date db v yesterday) yesterday uids uid date n
    ∙ get-on_row _ db (v, yesterday) (get db.usage_log (v, yesterday)) (uid, date)
        (λ e. n (ap (λ (k : Key). k.1) e))

reset-IsTidy :
    (reprint : String → Option String) (db : Db) (yesterday : String) (uids : List ℕ)
    → IsTidy reprint db.usage_log
    → IsTidy reprint (reset_all db yesterday uids).usage_log
unfolding reset_usage_for_date
reset-IsTidy reprint db yesterday [] h = h
reset-IsTidy reprint db yesterday (v ∷ uids) h =
    reset-IsTidy reprint (reset_usage_for_date db v yesterday) yesterday uids
      (on_row-IsTidy reprint _ db (v, yesterday) h)

pub reset-IsLinked :
    (agent : String) (uid : ℕ) (id date : String) (reprint : String → Option String) (exact : Bool)
    (a : Db) (s : ServerDb) (yesterday : String) (uids : List ℕ)
    → yesterday ≢ date
    → IsLinked agent uid id date reprint exact a s
    → IsLinked agent uid id date reprint exact (reset_all a yesterday uids) s
reset-IsLinked agent uid id date reprint exact a s yesterday uids n h = record {
  tidy = reset-IsTidy reprint a yesterday uids h.tidy;
  owner = h.owner;
  linked = rw (row-reset a yesterday uids uid date n) h.linked;
}
