-- ===== src/Node/Sample.antt =====
-- A small concrete world for the tests: two operators, one task, one chain that has the value 42.
use spotted_network.Base.{ℕ, ◌+◌, ◌*◌, String, true, none, some, [], ◌∷◌, ◌==◌, if◌then◌else◌}
use spotted_network.Base.Int.{pos}
use spotted_network.Base.Lists.{replicate}
use spotted_network.Base.Outcome.{Reply, message}
use spotted_network.Numeric.{Numeric}
use spotted_network.Signer.{Bytes, Crypto}
use spotted_network.Repo.Tasks.{Task, pending}
use spotted_network.Repo.Operators.{Operator}
use spotted_network.Node.{Cached, TaskResponse, TaskResponseMessage, TaskResponseTrack, Node, Env}

abbrev name_of : Bytes → String
name_of [] = "nobody"
name_of (k ∷ _) = if k == 1 then "key one" else "key two"

abbrev first : Bytes → Reply ℕ
first [] = Reply.fault (message "no signature")
first (k ∷ _) = Reply.value k

abbrev pub crypto : Crypto
crypto = record {
  keccak256 = λ b. b;
  sign = λ hash private. Reply.value (private ∷ []);
  sig_to_pub = λ hash signature. first signature;
  public_key = λ private. private;
  pubkey_to_address = λ key. key ∷ [];
  hex = name_of;
  hex_to_address = λ _. replicate 20 7;
}

abbrev pub whole : ℕ → Numeric
whole n = record { int = some (pos n); exp = pos 0; valid = true }

abbrev pub env : Env
env = record {
  db_fault = λ _. none;
  now = λ tick. tick;
  has_chain = λ chain. if chain == 1 then true else chain == 11155111;
  block_number = λ chain tick. Reply.value 100;
  state_at = λ chain target key block tick. Reply.value (pos 42);
  block_time = λ chain number tick. Reply.value (1000 + number * 12);
  current_epoch = λ chain tick. Reply.value 1;
  publish = λ tick. Reply.value tt;
  crypto = crypto;
  signing_key = 2;
  lower = λ s. s;
  extract_public_key = λ peer. Reply.value (5 ∷ []);
  clock = λ tick. 5000;
  confirmations =
      λ chain. if chain == 1 then some 12 else if chain == 11155111 then some 3 else none;
  is_hex_address = λ address. true;
  parse_any_base = λ text. some (pos 7);
  blocked_cached = λ peer tick. Cached.miss;
  operator_cached = λ key tick. Cached.miss;
}

abbrev operator : String → String → String → Operator
operator address signing p2p = record {
  address = address;
  signing_key = signing;
  p2p_key = p2p;
  registered_at_block_number = 7698500;
  active_epoch = 1;
  exit_epoch = 4294967295;
  is_active = true;
  weight = whole 10;
  created_at = 0;
  updated_at = 0;
}

abbrev pub one : Operator
one = operator "operator one" "key one" "0x05"

abbrev pub two : Operator
two = operator "operator two" "key two" "0x06"

abbrev pub task : ℕ → Task
task tries = record {
  task_id = "task";
  chain_id = 1;
  target_address = "target";
  key = whole 7;
  block_number = 5;
  value = whole 42;
  epoch = 1;
  status = pending;
  required_confirmations = 12;
  retry_count = tries;
  created_at = 0;
  updated_at = 0;
}

abbrev pub response : TaskResponse
response = record {
  task_id = "task";
  signature = 1 ∷ [];
  epoch = 1;
  chain_id = 1;
  target_address = "target";
  key = "7";
  value = "42";
  block_number = 5;
}

abbrev pub msg : Bytes → TaskResponseMessage
msg signature = record {
  task_id = "task";
  signature = signature;
  value = "42";
  block_number = 5;
  chain_id = 1;
  target_address = "target";
  key = "7";
  epoch = 1;
}

abbrev pub empty : TaskResponseTrack
empty = record { responses = []; weights = [] }

-- One response is there, with the weight of its operator.
abbrev pub answered : TaskResponseTrack
answered = record {
  responses = ("task", ("key one", response) ∷ []) ∷ [];
  weights = ("task", ("key one", some (pos 10)) ∷ []) ∷ [];
}

-- The task has timed out `tries` times.
abbrev pub node : TaskResponseTrack → ℕ → Node
node track tries = record {
  tasks = task tries ∷ [];
  operators = one ∷ two ∷ [];
  blacklist = [];
  responses = [];
  track = track;
  epoch_state = record {
    epoch_number = 1;
    minimum_weight = some (pos 1);
    total_weight = some (pos 20);
    threshold_weight = some (pos 10);
  };
  last_processed_epoch = 1;
  published = [];
  tick = 0;
}
