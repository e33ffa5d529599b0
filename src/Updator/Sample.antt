-- ===== src/Updator/Sample.antt =====
-- The contracts of the main chain, and a transaction that puts the operators back on an error.
use spotted_network.Base.{[], ◌∷◌}
use spotted_network.Base.Int.{pos}
use spotted_network.Base.Outcome.{Reply, Outcome, ok, err, panic}
use spotted_network.Node.{Node, Step}
use spotted_network.Updator.{MainnetClient}

abbrev pub main : MainnetClient
main = record {
  block_number = λ tick. Reply.value 7698600;
  get_minimum_weight = λ tick. Reply.value (pos 1);
  get_total_weight = λ tick. Reply.value (pos 20);
  get_threshold_weight = λ tick. Reply.value (pos 10);
  get_operator_weight = λ address tick. Reply.value (pos 10);
  get_operator_signing_key = λ address epoch tick. Reply.value (1 ∷ []);
  get_operator_p2p_key = λ address epoch tick. Reply.value (5 ∷ []);
}

abbrev pub finish : Node → Outcome (Unit {0}) × Node → Outcome (Unit {0}) × Node
finish n (ok u, m) = (ok u, m)
finish n (err e, m) = (err e, record m { operators = n.operators })
finish n (panic, m) = (panic, record m { operators = n.operators })

abbrev pub transact : Step (Unit {0}) → Step (Unit {0})
transact m n = finish n (m n)
