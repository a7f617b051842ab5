-- ===== src/Migrate/Kept.antt =====
-- What a migration leaves as it was.
use social_graph_engine.Base.{
  ℕ, zero, suc, ◌*◌, ◌≡◌, refl, sym, ap, ◌∙◌, Bool, true, false, Option, none, some, List, [], ◌∷◌,
  Text, text_eq, text_eq_sound, Bool-cases, inl, inr,
}
use social_graph_engine.Redis.{Reply, reply, failed}
use social_graph_engine.Cache.{Bytes}
use social_graph_engine.Cache.Keys.{replace_prefix}
use social_graph_engine.Migrate.{
  Ttl, seconds, no_expiry, no_key, no_answer, Server, Tally, none_yet, Rule, migration_maps, Answer,
  after_restore, copy_expiring, copy_lasting, copy, judge, move_key, or_raise, move_keys,
  after_scan, scan_rule, scan_rules, migrate_old_keys,
}

-- A property of the state that every key keeps is kept by the migration, however it ends.
module _ {S : Type 0} (R : Server S) (dry_run : Bool) (P : S → Type 0)
    (kept : (rule : Rule) (key : Text) (t : Tally) (s : S)
      → P s
      → P (move_key R dry_run rule key t s).1) where
  or_raise-keeps :
      (next : Tally → S → Answer × S) (o : Option Tally) (s : S)
      → ((t : Tally) (s' : S) → P s' → P (next t s').1)
      → P s
      → P (or_raise R next (o, s)).1
  unfolding or_raise
  or_raise-keeps next none s keeps p = p
  or_raise-keeps next (some t) s keeps p = keeps t s p

  move_keys-keeps :
      (rule : Rule) (keys : List Text) (next : Tally → S → Answer × S) (t : Tally) (s : S)
      → ((t : Tally) (s' : S) → P s' → P (next t s').1)
      → P s
      → P (move_keys R dry_run rule keys next t s).1
  unfolding move_keys
  move_keys-keeps rule [] next t s keeps p = keeps t s p
  move_keys-keeps rule (key ∷ keys) next t s keeps p =
      or_raise-keeps (λ t' s'. move_keys R dry_run rule keys next t' s')
        (move_key R dry_run rule key t s).0 (move_key R dry_run rule key t s).1
        (λ t' s' p'. move_keys-keeps rule keys next t' s' keeps p') (kept rule key t s p)

  after_scan-keeps :
      (rule : Rule) (again : ℕ → Tally → S → Answer × S) (next : Tally → S → Answer × S)
      (answer : Reply (ℕ × List Text)) (t : Tally) (s : S)
      → ((c : ℕ) (t : Tally) (s' : S) → P s' → P (again c t s').1)
      → ((t : Tally) (s' : S) → P s' → P (next t s').1)
      → P s
      → P (after_scan R dry_run rule again next answer t s).1
  unfolding after_scan
  after_scan-keeps rule again next failed t s goes keeps p = p
  after_scan-keeps rule again next (reply (zero, keys)) t s goes keeps p =
      move_keys-keeps rule keys next t s keeps p
  after_scan-keeps rule again next (reply (suc c, keys)) t s goes keeps p =
      move_keys-keeps rule keys (again (suc c)) t s (goes (suc c)) p

  scan_rule-keeps :
      (rule : Rule) (fuel : ℕ) (next : Tally → S → Answer × S) (cursor : ℕ) (t : Tally) (s : S)
      → ((t : Tally) (s' : S) → P s' → P (next t s').1)
      → P s
      → P (scan_rule R dry_run rule fuel next cursor t s).1
  unfolding scan_rule
  scan_rule-keeps rule zero next cursor t s keeps p = p
  scan_rule-keeps rule (suc fuel) next cursor t s keeps p =
      after_scan-keeps rule (λ c t' s'. scan_rule R dry_run rule fuel next c t' s') next
        (R.scan cursor rule.pattern s) t s
        (λ c t' s' p'. scan_rule-keeps rule fuel next c t' s' keeps p') keeps p

  scan_rules-keeps :
      (fuel : ℕ) (rules : List Rule) (t : Tally) (s : S)
      → P s
      → P (scan_rules R dry_run fuel rules t s).1
  unfolding scan_rules
  scan_rules-keeps fuel [] t s p = p
  scan_rules-keeps fuel (rule ∷ rules) t s p =
      scan_rule-keeps rule fuel (λ t' s'. scan_rules R dry_run fuel rules t' s') 0 t s
        (λ t' s' p'. scan_rules-keeps fuel rules t' s' p') p

  migrate_old_keys-keeps :
      (fuel : ℕ) (available : Bool) (s : S)
      → P s
      → P (migrate_old_keys R fuel available dry_run s).1
  unfolding migrate_old_keys
  migrate_old_keys-keeps fuel true s p = scan_rules-keeps fuel migration_maps none_yet s p
  migrate_old_keys-keeps fuel false s p = p

-- EXISTS answers no only for a key that is missing, and RESTORE changes no key but its own.
pub record IsServer {S : Type 0} (R : Server S) (value : Text → S → Option Bytes) : Type 0 where
  pub exists-missing : (k : Text) (s : S) → R.exists k s ≡ reply false → value k s ≡ none
  pub restore-other :
      (k : Text) (ms : ℕ) (v : Bytes) (j : Text) (s : S)
      → text_eq k j ≡ false
      → value j (R.restore k ms v s).1 ≡ value j s

module _ {S : Type 0} (R : Server S) (value : Text → S → Option Bytes) (law : IsServer R value)
    (j : Text) (v : Bytes) where
  restore-keeps :
      (k : Text) (ms : ℕ) (w : Bytes) (s : S)
      → value k s ≡ none
      → value j s ≡ some v
      → value j (R.restore k ms w s).1 ≡ some v
  restore-keeps k ms w s missing there = elim (Bool-cases (text_eq k j)) [
    | inl same ↦
        let both : none ≡ some v =
          sym missing ∙ ap (λ i. value i s) (text_eq_sound k j same) ∙ there in
        cc
    | inr other ↦ law.restore-other k ms w j s other ∙ there
  ]

  after_restore-state :
      (t : Tally) (r : Reply (Unit {0})) (s : S) → (after_restore R t (r, s)).1 ≡ s
  unfolding after_restore
  after_restore-state t failed s = refl
  after_restore-state t (reply _) s = refl

  copy_expiring-keeps :
      (k : Text) (n : ℕ) (t : Tally) (d : Reply (Option Bytes)) (s : S)
      → value k s ≡ none
      → value j s ≡ some v
      → value j (copy_expiring R k n t d s).1 ≡ some v
  unfolding copy_expiring
  copy_expiring-keeps k n t failed s missing there = there
  copy_expiring-keeps k n t (reply none) s missing there = there
  copy_expiring-keeps k n t (reply (some w)) s missing there =
      ap (value j)
        (after_restore-state t (R.restore k (n * 1000) w s).0 (R.restore k (n * 1000) w s).1)
      ∙ restore-keeps k (n * 1000) w s missing there

  copy_lasting-keeps :
      (k : Text) (t : Tally) (d : Reply (Option Bytes)) (s : S)
      → value k s ≡ none
      → value j s ≡ some v
      → value j (copy_lasting R k t d s).1 ≡ some v
  unfolding copy_lasting
  copy_lasting-keeps k t failed s missing there = there
  copy_lasting-keeps k t (reply none) s missing there = there
  copy_lasting-keeps k t (reply (some w)) s missing there =
      ap (value j) (after_restore-state t (R.restore k 0 w s).0 (R.restore k 0 w s).1)
      ∙ restore-keeps k 0 w s missing there

  copy-keeps :
      (old k : Text) (t : Tally) (l : Reply Ttl) (s : S)
      → value k s ≡ none
      → value j s ≡ some v
      → value j (copy R old k t l s).1 ≡ some v
  unfolding copy
  copy-keeps old k t failed s missing there = there
  copy-keeps old k t (reply (seconds n)) s missing there =
      copy_expiring-keeps k n t (R.dump old s) s missing there
  copy-keeps old k t (reply no_expiry) s missing there =
      copy_lasting-keeps k t (R.dump old s) s missing there
  copy-keeps old k t (reply no_key) s missing there = there
  copy-keeps old k t (reply no_answer) s missing there = there

  judge-keeps :
      (dry_run : Bool) (old k : Text) (t : Tally) (e : Reply Bool) (s : S)
      → R.exists k s ≡ e
      → value j s ≡ some v
      → value j (judge R dry_run old k t e s).1 ≡ some v
  unfolding judge
  judge-keeps dry_run old k t failed s answer there = there
  judge-keeps dry_run old k t (reply true) s answer there = there
  judge-keeps true old k t (reply false) s answer there = there
  judge-keeps false old k t (reply false) s answer there =
      copy-keeps old k t (R.ttl old s) s (law.exists-missing k s answer) there

  -- If EXISTS denies only keys that are missing and RESTORE changes no key but its own: a migration
  -- overwrites and deletes nothing. Every key that has a value keeps it, the old keys and new keys
  -- that are there already among them, dry run or not, and whichever commands fail.
  pub migrate_old_keys-value :
      (fuel : ℕ) (available dry_run : Bool) (s : S)
      → value j s ≡ some v
      → value j (migrate_old_keys R fuel available dry_run s).1 ≡ some v
  unfolding move_key
  migrate_old_keys-value fuel available dry_run s there =
      migrate_old_keys-keeps R dry_run (λ s'. value j s' ≡ some v)
        (λ rule key t s' p.
          let k = replace_prefix key rule.old rule.new in
          judge-keeps dry_run key k t (R.exists k s') s' refl p)
        fuel available s there

module _ {S : Type 0} (R : Server S) where
  judge-dry : (old k : Text) (t : Tally) (e : Reply Bool) (s : S) → (judge R true old k t e s).1 ≡ s
  unfolding judge
  judge-dry old k t failed s = refl
  judge-dry old k t (reply true) s = refl
  judge-dry old k t (reply false) s = refl

  -- A dry run changes nothing.
  pub migrate_old_keys-dry :
      (fuel : ℕ) (available : Bool) (s : S) → (migrate_old_keys R fuel available true s).1 ≡ s
  unfolding move_key
  migrate_old_keys-dry fuel available s =
      migrate_old_keys-keeps R true (λ s'. s' ≡ s)
        (λ rule key t s' p.
          let k = replace_prefix key rule.old rule.new in judge-dry key k t (R.exists k s') s' ∙ p)
        fuel available s refl
