-- ===== src/Migrate/Tests.antt =====
-- A store with one key of the old token blacklist, and a migration that fails half-way.
use social_graph_engine.Base.{
  ◌≡◌, refl, ap, Bool, true, false, Option, none, some, List, [], ◌∷◌, ◌||◌, Text, text_eq, codes,
  if◌then◌else◌,
}
use social_graph_engine.Redis.{reply}
use social_graph_engine.Cache.{Bytes}
use social_graph_engine.Cache.Keys.{replace_prefix}
use social_graph_engine.Migrate.{
  no_expiry, Server, migration_maps, counted, after_restore, copy_expiring, copy_lasting, copy,
  judge, move_key, or_raise, move_keys, after_scan, scan_rule, scan_rules, migrate_old_keys,
}
use social_graph_engine.Migrate.Kept.{IsServer, migrate_old_keys-value}

program : Unit {0}
unfolding text_eq replace_prefix migration_maps after_restore copy_expiring copy_lasting copy judge
    move_key or_raise move_keys after_scan scan_rule scan_rules migrate_old_keys
program = tt

abbrev Store : Type 0
Store = Text → Option Bytes

abbrev value : Text → Store → Option Bytes
value k s = s k

abbrev old_key : Text
old_key = codes "blacklist:token:x"

abbrev is_there : Option Bytes → Bool
is_there none = false
is_there (some _) = true

-- Both patterns of the blacklist match its key.
abbrev found : Text → List Text
found pattern =
    if text_eq pattern (codes "blacklist:token:*") || text_eq pattern (codes "blacklist:*")
    then old_key ∷ []
    else []

abbrev server : Server Store
server = record {
  scan = λ cursor pattern s. reply (0, found pattern);
  exists = λ k s. reply (is_there (s k));
  ttl = λ k s. reply no_expiry;
  dump = λ k s. reply (s k);
  restore = λ k ms v s. (reply tt, λ j. if text_eq k j then some v else s j);
}

missing : (o : Option Bytes) → reply (is_there o) ≡ reply false → o ≡ none
missing none e = refl
missing (some w) e = cc

server-IsServer : IsServer server value
server-IsServer = record {
  exists-missing = λ k s e. missing (s k) e;
  restore-other = λ k ms v j s ne. ap (λ b. if b then some v else s j) ne;
}

abbrev store : Store
store k = if text_eq k old_key then some (codes "1") else none

-- A token of the old blacklist is migrated twice, under two new names.
twice :
    (migrate_old_keys server 2 true false store).0
    ≡ counted record { migrated = 2; skipped = 0; errors = 0 }
unfolding program
twice = refl

right_name :
    (migrate_old_keys server 2 true false store).1 (codes "sgp:auth:blacklist:x") ≡ some (codes "1")
unfolding program
right_name = refl

wrong_name :
    (migrate_old_keys server 2 true false store).1 (codes "sgp:auth:blacklist:token:x")
    ≡ some (codes "1")
unfolding program
wrong_name = refl

migrate_old_keys-value_example :
    value old_key (migrate_old_keys server 2 true false store).1 ≡ some (codes "1")
unfolding program
migrate_old_keys-value_example =
    migrate_old_keys-value server value server-IsServer old_key (codes "1") 2 true false store refl
