-- ===== src/Sync/Totals.antt =====
-- The day's total of an agent and that of the server.
use screenguard.Prelude.{
  eq_nat, eq_string, eq_pair, ℕ, ◌+◌, ◌<◌, ◌≡◌, refl, subst, Bool, true, false, ◌&&◌, Option, none,
  some, List, [], ◌∷◌, String, arith, Bool-cases, inl, inr, or_default,
}
use screenguard.Prelude.Dict.{get}
use screenguard.Prelude.Int.{ℤ, pos, as_i64-small, two63, ◌+ℤ◌, ◌≤ℤ◌, +ℤ_parts, eq_of_parts}
use screenguard.Agent.Tables.{UsageRow, Db as AgentDb}
use screenguard.Agent.Db.{used_in}
use screenguard.Agent.State.{get_unsynced_usage}
use screenguard.Server.Db.{Db as ServerDb, raise}
use screenguard.Sync.{send, send_usage_sync, receive, mark_all, entries_of, store_usage}
use screenguard.Sync.Marks.{Key, marked, get-mark_due}
use screenguard.Sync.Stored.{
  IsTidy, IsOwner, store_usage-IsOwner, mark_all-IsTidy, synced_with, get-store_due,
}

abbrev pub value : Option ℤ → ℤ
value v = or_default (pos 0) v

abbrev pub LinkedRow : Bool → ℕ → ℤ → Type 0
LinkedRow true used v = v ≡ pos used
LinkedRow false used v = v ≤ℤ pos used

-- The server has at most the agent's total; if `exact`, a row that is marked has been stored.
abbrev pub Linked : Bool → Option UsageRow → Option ℤ → Type 0
Linked exact none v = v ≡ none
Linked exact (some row) v = LinkedRow (exact && row.synced) row.used_seconds (value v)

pub LinkedRow-le : (b : Bool) (used : ℕ) (v : ℤ) → LinkedRow b used v → v ≤ℤ pos used
LinkedRow-le true used v h = rw h (omega arith)
LinkedRow-le false used v h = h

pub Linked-le :
    (exact : Bool) (r : Option UsageRow) (v : Option ℤ)
    → Linked exact r v
    → value v ≤ℤ pos (used_in r)
Linked-le exact none v h = rw h (omega arith)
Linked-le exact (some row) v h = LinkedRow-le (exact && row.synced) row.used_seconds (value v) h

abbrev pub more : Option UsageRow → ℕ → Option UsageRow
more r secs = some (record { used_seconds = used_in r + secs; synced = false })

pub and_false : (b : Bool) → (b && false) ≡ false
and_false b = ground arith

-- New seconds that the server does not hear of, or that it does.
pub more-Linked_lost :
    (exact : Bool) (r : Option UsageRow) (v : Option ℤ) (secs : ℕ)
    → Linked exact r v
    → Linked exact (more r secs) v
more-Linked_lost exact r v secs h =
    let le = Linked-le exact r v h in rw (and_false exact) (omega arith)

pub more-Linked_heard :
    (exact : Bool) (r : Option UsageRow) (v : Option ℤ) (secs : ℕ)
    → Linked exact r v
    → Linked exact (more r secs) (some (value v +ℤ pos secs))
more-Linked_heard exact r v secs h =
    let le = Linked-le exact r v h in
    rw (and_false exact) (ground (arith, +ℤ_parts (value v) (pos secs)))

-- A sync that arrives.
raise-le : (n : ℕ) (v : Option ℤ) → value v ≤ℤ pos n → raise (pos n) v ≡ pos n
raise-le n none h = refl
raise-le n (some old) h = ground (arith, eq_of_parts old (pos n))

equal-LinkedRow : (b : Bool) (used : ℕ) → LinkedRow b used (pos used)
equal-LinkedRow true used = refl
equal-LinkedRow false used = omega arith

sync-Linked_heard :
    (exact : Bool) (r : Option UsageRow) (v : Option ℤ)
    → used_in r < two63
    → Linked exact r v
    → Linked exact (marked r) (synced_with r v)
sync-Linked_heard exact none v b h = h
sync-Linked_heard exact (some row) v b h = elim (Bool-cases row.synced) [
  | inl y ↦ rw y (subst (λ s. LinkedRow (exact && s) row.used_seconds (value v)) y h)
  | inr y ↦ rw y (
      rw (as_i64-small row.used_seconds b) (
        rw (raise-le row.used_seconds v (Linked-le exact (some row) v h))
          (equal-LinkedRow (exact && true) row.used_seconds)))
]

-- A sync that is lost.
sync-Linked_lost :
    (exact : Bool) (r : Option UsageRow) (v : Option ℤ)
    → Linked exact r v
    → Linked false (marked r) v
sync-Linked_lost exact none v h = h
sync-Linked_lost exact (some row) v h =
    LinkedRow-le (exact && row.synced) row.used_seconds (value v) h

-- After a sync that arrives the totals are one.
pub marked-Linked_eq :
    (r : Option UsageRow) (v : Option ℤ) → Linked true (marked r) v → value v ≡ pos (used_in r)
marked-Linked_eq none v h = rw h refl
marked-Linked_eq (some row) v h = h

module _ (agent : String) (uid : ℕ) (id date : String) (reprint : String → Option String) where
  pub record IsLinked (exact : Bool) (a : AgentDb) (s : ServerDb) : Type 0 where
    pub tidy : IsTidy reprint a.usage_log
    pub owner : IsOwner agent uid id s
    pub linked : Linked exact (get a.usage_log (uid, date)) (get s.daily_usage (id, date))

  pub send-db : (a : AgentDb) (rows : List (Key × ℕ)) → (send reprint a rows).0 ≡ mark_all a rows
  unfolding mark_all
  send-db a [] = refl
  send-db a (r ∷ rows) = refl

  receive-send :
      (a : AgentDb) (s : ServerDb) (rows : List (Key × ℕ))
      → receive agent s (send reprint a rows).1 ≡ store_usage agent s (entries_of reprint rows)
  unfolding store_usage
  receive-send a s [] = refl
  receive-send a s (r ∷ rows) = refl

  pub sync-IsLinked_heard :
      (exact : Bool) (a : AgentDb) (s : ServerDb)
      → used_in (get a.usage_log (uid, date)) < two63
      → IsLinked exact a s
      → IsLinked exact (send_usage_sync reprint a).0 (receive agent s (send_usage_sync reprint a).1)
  unfolding send_usage_sync get_unsynced_usage
  sync-IsLinked_heard exact a s b h =
      let rows = get_unsynced_usage a in
      rw (send-db a rows) (
        rw (receive-send a s rows) (record {
          tidy = mark_all-IsTidy reprint a rows h.tidy;
          owner = store_usage-IsOwner agent uid id date s (entries_of reprint rows) h.owner;
          linked = rw (get-mark_due a (uid, date)) (
              rw (get-store_due agent uid id date reprint s a.usage_log h.owner h.tidy) (
                sync-Linked_heard exact (get a.usage_log (uid, date)) (get s.daily_usage (id, date))
                  b h.linked));
        }))

  pub sync-IsLinked_lost :
      (exact : Bool) (a : AgentDb) (s : ServerDb)
      → IsLinked exact a s
      → IsLinked false (send_usage_sync reprint a).0 s
  unfolding send_usage_sync
  sync-IsLinked_lost exact a s h =
      let rows = get_unsynced_usage a in
      rw (send-db a rows) (record {
        tidy = mark_all-IsTidy reprint a rows h.tidy;
        owner = h.owner;
        linked = rw (get-mark_due a (uid, date)) (
            sync-Linked_lost exact (get a.usage_log (uid, date)) (get s.daily_usage (id, date))
              h.linked);
      })
