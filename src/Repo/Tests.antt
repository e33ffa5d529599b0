-- ===== src/Repo/Tests.antt =====
-- The theorems on the tables at concrete rows.
use spotted_network.Base.{◌≡◌, refl, true, none, some, [], ◌∷◌}
use spotted_network.Base.Int.{pos}
use spotted_network.Repo.Table.{find, update}
use spotted_network.Repo.Blacklist.{
  IncrementViolationCountParams, Blacklist, increment_violation_count, is_blocked,
}
use spotted_network.Repo.Blacklist.Blocks.{Unique}
use spotted_network.Repo.Operators.{UpsertOperatorParams}

abbrev rows : Blacklist
rows =
    record {
      peer_id = "bad";
      violation_count = 2;
      created_at = 0;
      updated_at = 0;
      expires_at = none;
    }
    ∷ record {
      peer_id = "good";
      violation_count = 1;
      created_at = 0;
      updated_at = 0;
      expires_at = none;
    }
    ∷ []

abbrev one_more : IncrementViolationCountParams
one_more = record { peer_id = "bad"; violation_count = 1; expires_at = none }

unique : Unique rows
unfolding find
unique = (refl, (refl, tt))

blocked_at_three : is_blocked "bad" 10 (increment_violation_count one_more 9 rows).1 ≡ true
unfolding is_blocked increment_violation_count find update
blocked_at_three = refl

abbrev params : UpsertOperatorParams
params = record {
  address = "operator";
  signing_key = "key";
  p2p_key = "0x05";
  registered_at_block_number = 7698500;
  active_epoch = 1;
  exit_epoch = 4294967295;
  is_active = true;
  weight = record { int = some (pos 10); exp = pos 0; valid = true };
}
