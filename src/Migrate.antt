-- ===== src/Migrate.antt =====
-- The migration of old keys: `migrate_old_keys` of middleware_python/db/redis.py. The commands of Redis
-- are a parameter, and any may raise. The loop over SCAN takes fuel for each pattern. The details of
-- the answer are left out: they list what is counted.
pub mod Kept
mod Tests
use social_graph_engine.Base.{
  ℕ, zero, suc, ◌+◌, ◌*◌, Bool, true, false, Option, none, some, List, [], ◌∷◌, Text, codes,
  if◌then◌else◌, length,
}
use social_graph_engine.Redis.{Reply, reply, failed}
use social_graph_engine.Cache.{Bytes}
use social_graph_engine.Cache.Keys.{replace_prefix}

-- What TTL answers: seconds, that the key has no expiry (−1), that there is no key (−2), or None.
pub data Ttl : Type 0 where
  seconds : ℕ → Ttl
  no_expiry no_key no_answer : Ttl

-- SCAN, EXISTS, TTL, DUMP, and RESTORE with REPLACE and a time in milliseconds, 0 for none.
pub record Server (S : Type 0) : Type 0 where
  pub scan : ℕ → Text → S → Reply (ℕ × List Text)
  pub exists : Text → S → Reply Bool
  pub ttl : Text → S → Reply Ttl
  pub dump : Text → S → Reply (Option Bytes)
  pub restore : Text → ℕ → Bytes → S → Reply (Unit {0}) × S

-- The counts of the answer.
pub record Tally : Type 0 where
  pub migrated : ℕ
  pub skipped : ℕ
  pub errors : ℕ

abbrev pub none_yet : Tally
none_yet = record { migrated = 0; skipped = 0; errors = 0 }

abbrev pub migrate : Tally → Tally
migrate t = record t { migrated = suc t.migrated }

abbrev pub skip : Tally → Tally
skip t = record t { skipped = suc t.skipped }

abbrev pub err : Tally → Tally
err t = record t { errors = suc t.errors }

-- `migration_maps`: the pattern, the old prefix and the new one.
pub record Rule : Type 0 where
  pub pattern : Text
  pub old : Text
  pub new : Text

unfoldable pub migration_maps : List Rule
migration_maps =
    record {
      pattern = codes "social_graph:*";
      old = codes "social_graph:";
      new = codes "sgp:graph:";
    }
    ∷ record {
      pattern = codes "socialgraph:*";
      old = codes "socialgraph:";
      new = codes "sgp:graph:";
    }
    ∷ record {
      pattern = codes "blacklist:token:*";
      old = codes "blacklist:token:";
      new = codes "sgp:auth:blacklist:";
    }
    ∷ record {
      pattern = codes "blacklist:*";
      old = codes "blacklist:";
      new = codes "sgp:auth:blacklist:";
    }
    ∷ record { pattern = codes "rate_limit:*"; old = codes "rate_limit:"; new = codes "sgp:rate:" }
    ∷ record {
      pattern = codes "lock:compute:*";
      old = codes "lock:compute:";
      new = codes "sgp:lock:compute:";
    }
    ∷ []

-- The answer: the counts, that a command outside the `try` raised, or that the fuel ran out.
pub data Answer : Type 0 where
  counted : Tally → Answer
  raised no_fuel : Answer

module _ {S : Type 0} (R : Server S) where
  unfoldable pub after_restore : Tally → Reply (Unit {0}) × S → Tally × S
  after_restore t (failed, s) = (err t, s)
  after_restore t (reply _, s) = (migrate t, s)

  -- DUMP of a key with an expiry: without a value it is an error.
  unfoldable pub copy_expiring : Text → ℕ → Tally → Reply (Option Bytes) → S → Tally × S
  copy_expiring new_key ttl t failed s = (err t, s)
  copy_expiring new_key ttl t (reply none) s = (err t, s)
  copy_expiring new_key ttl t (reply (some serialized)) s =
      after_restore t (R.restore new_key (ttl * 1000) serialized s)

  -- DUMP of a key without: the key counts as migrated also without a value.
  unfoldable pub copy_lasting : Text → Tally → Reply (Option Bytes) → S → Tally × S
  copy_lasting new_key t failed s = (err t, s)
  copy_lasting new_key t (reply none) s = (migrate t, s)
  copy_lasting new_key t (reply (some serialized)) s =
      after_restore t (R.restore new_key 0 serialized s)

  unfoldable pub copy : Text → Text → Tally → Reply Ttl → S → Tally × S
  copy old_key new_key t failed s = (err t, s)
  copy old_key new_key t (reply (seconds n)) s = copy_expiring new_key n t (R.dump old_key s) s
  copy old_key new_key t (reply no_expiry) s = copy_lasting new_key t (R.dump old_key s) s
  copy old_key new_key t (reply no_key) s = (skip t, s)
  copy old_key new_key t (reply no_answer) s = (skip t, s)

  -- One key, given what EXISTS answers of its new name; `none` where that raises.
  unfoldable pub judge : Bool → Text → Text → Tally → Reply Bool → S → Option Tally × S
  judge dry_run old_key new_key t failed s = (none, s)
  judge dry_run old_key new_key t (reply true) s = (some (skip t), s)
  judge true old_key new_key t (reply false) s = (some (migrate t), s)
  judge false old_key new_key t (reply false) s =
      let (t', s') = copy old_key new_key t (R.ttl old_key s) s in (some t', s')

  unfoldable pub move_key : Bool → Rule → Text → Tally → S → Option Tally × S
  move_key dry_run rule old_key t s =
      let new_key = replace_prefix old_key rule.old rule.new in
      judge dry_run old_key new_key t (R.exists new_key s) s

  -- What follows a step that may raise.
  unfoldable pub or_raise : (Tally → S → Answer × S) → Option Tally × S → Answer × S
  or_raise next (none, s) = (raised, s)
  or_raise next (some t, s) = next t s

  -- The keys of a batch.
  unfoldable pub move_keys :
      Bool → Rule → List Text → (Tally → S → Answer × S) → Tally → S → Answer × S
  move_keys dry_run rule [] next t s = next t s
  move_keys dry_run rule (key ∷ keys) next t s =
      or_raise (λ t' s'. move_keys dry_run rule keys next t' s') (move_key dry_run rule key t s)

  -- The SCAN loop of a rule, and the rules that follow.
  unfoldable pub after_scan :
      Bool
      → Rule
      → (ℕ → Tally → S → Answer × S)
      → (Tally → S → Answer × S)
      → Reply (ℕ × List Text)
      → Tally
      → S
      → Answer × S
  after_scan dry_run rule again next failed t s = (raised, s)
  after_scan dry_run rule again next (reply (zero, keys)) t s = move_keys dry_run rule keys next t s
  after_scan dry_run rule again next (reply (suc cursor, keys)) t s =
      move_keys dry_run rule keys (again (suc cursor)) t s

  unfoldable pub scan_rule : Bool → Rule → ℕ → (Tally → S → Answer × S) → ℕ → Tally → S → Answer × S
  scan_rule dry_run rule zero next cursor t s = (no_fuel, s)
  scan_rule dry_run rule (suc fuel) next cursor t s =
      after_scan dry_run rule (λ c t' s'. scan_rule dry_run rule fuel next c t' s') next
        (R.scan cursor rule.pattern s) t s

  unfoldable pub scan_rules : Bool → ℕ → List Rule → Tally → S → Answer × S
  scan_rules dry_run fuel [] t s = (counted t, s)
  scan_rules dry_run fuel (rule ∷ rules) t s =
      scan_rule dry_run rule fuel (λ t' s'. scan_rules dry_run fuel rules t' s') 0 t s

  -- `migrate_old_keys`; without a client nothing is counted.
  unfoldable pub migrate_old_keys : ℕ → Bool → Bool → S → Answer × S
  migrate_old_keys fuel available dry_run s =
      if available then scan_rules dry_run fuel migration_maps none_yet s else (counted none_yet, s)
