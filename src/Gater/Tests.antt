-- ===== src/Gater/Tests.antt =====
-- The theorems on the gater at the world of `Node.Sample`.
use spotted_network.Base.{ℕ, ◌≡◌, refl, Bool, true, Option, none, some, [], ◌∷◌, arith}
use spotted_network.Node.{Cached, Node, Env}
use spotted_network.Node.Sample.{env, empty, node}
use spotted_network.Repo.Table.{find, update}
use spotted_network.Repo.Blacklist.{increment_violation_count, is_blocked}
use spotted_network.Repo.Blacklist.Blocks.{Unique}
use spotted_network.Task.Response.{one_violation}
use spotted_network.Gater.Permission.{Refused, third_violation_refused}

-- A process that counted two violations of the peer.
abbrev warned : Node
warned = record (node empty 0) {
  blacklist =
      record {
        peer_id = "peer";
        violation_count = 2;
        created_at = 0;
        updated_at = 0;
        expires_at = none;
      }
      ∷ [];
}

abbrev banned : Node
banned = record warned {
  blacklist = (increment_violation_count (one_violation env "peer") 5 warned.blacklist).1;
}

unique : Unique warned.blacklist
unfolding find
unique = (refl, tt)

-- The cache was filled after the violation.
abbrev remembering : Env
remembering = record env { blocked_cached = λ peer tick. Cached.hit (some true) }

current :
    (answer : Option Bool)
    → remembering.blocked_cached "peer" banned.tick ≡ Cached.hit answer
    → (read_at : ℕ) × (answer ≡ some (is_blocked "peer" read_at banned.blacklist))
unfolding increment_violation_count update find is_blocked
current answer held = (5, cc)

third_violation_refused_example : Refused remembering banned "peer"
unfolding find
third_violation_refused_example =
    third_violation_refused remembering "peer" 5 warned banned unique (omega arith) refl current
