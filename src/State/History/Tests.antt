-- ===== src/State/History/Tests.antt =====
-- The theorems on the rotation history at a concrete memory.
use cfwarp_cli.Prelude.{
  ◌+◌, ◌^◌, ◌<◌, ◌≡◌, ◌≢◌, refl, true, false, eq_iff, [], ◌∷◌, pos, arith, tidy,
}
use cfwarp_cli.State.History.{
  RotationFingerprint, RotationHistoryEntry, RotationHistory, normalize_entry, normalize,
  normalize_rotation_distinctness, evaluate_rotation_novelty, history_limit,
  remember_rotation_fingerprint,
}
use cfwarp_cli.State.History.Novelty.{
  is_seen, times_seen, novelty_of, evaluate_rotation_novelty_lem,
}
use cfwarp_cli.State.History.Remember.{
  IsMemory, remember_rotation_fingerprint-IsMemory, remember-evaluate,
}

abbrev old_entry : RotationHistoryEntry
old_entry = record {
  transport = "masque";
  fingerprint = "f1";
  ipv4_hash = "a1";
  ipv6_hash = "b1";
  first_seen_at = 10;
  last_seen_at = 20;
  seen_count = pos 2;
}

abbrev one_entry : RotationHistory
one_entry = record { schema_version = pos 1; entries = old_entry ∷ [] }

abbrev new_address : RotationFingerprint
new_address = record {
  transport = "masque";
  fingerprint = "f2";
  ipv4_hash = "a2";
  ipv6_hash = "b1";
}

tidy-masque : tidy "masque" ≡ "masque"
unfolding tidy
tidy-masque = refl

f2-ne-nil : new_address.fingerprint ≢ ""
f2-ne-nil e = ground (arith, eq_iff "f2" "", e)

unseen_before : times_seen new_address one_entry.entries + 1 < 2 ^ 63
unfolding times_seen is_seen
unseen_before = omega arith

unseen_normalized : times_seen new_address (normalize one_entry).entries + 1 < 2 ^ 63
unfolding times_seen is_seen normalize normalize_entry tidy
unseen_normalized = omega arith

rare : times_seen new_address (normalize one_entry).entries < 2 ^ 63
unfolding times_seen is_seen normalize normalize_entry tidy
rare = omega arith

one_entry-IsMemory : IsMemory (history_limit (pos 1)) one_entry
unfolding history_limit
one_entry-IsMemory = record {
  normal = ((tidy-masque, refl), tt);
  keyed = (tt, tt);
  bounded = omega arith;
}

evaluate_rotation_novelty_lem_example :
    evaluate_rotation_novelty one_entry new_address "both"
    ≡ novelty_of (normalize one_entry) new_address (normalize_rotation_distinctness "both")
evaluate_rotation_novelty_lem_example =
    evaluate_rotation_novelty_lem one_entry new_address "both" rare

remember_rotation_fingerprint-IsMemory_example :
    IsMemory
      (history_limit (pos 1))
      (remember_rotation_fingerprint 40 one_entry new_address 30 (pos 1))
remember_rotation_fingerprint-IsMemory_example =
    remember_rotation_fingerprint-IsMemory 40 one_entry new_address 30 (pos 1) tidy-masque f2-ne-nil
      unseen_before one_entry-IsMemory

remember-evaluate_example :
    let r =
      evaluate_rotation_novelty
        (remember_rotation_fingerprint 40 one_entry new_address 30 (pos 1))
        new_address
        "both" in
    (r.seen_count ≡ pos (times_seen new_address (normalize one_entry).entries + 1))
    × (r.exact_reuse ≡ true)
    × (r.new_fingerprint ≡ false)
remember-evaluate_example =
    remember-evaluate 40 one_entry new_address 30 (pos 1) "both" tidy-masque f2-ne-nil
      unseen_normalized
