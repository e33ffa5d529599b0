-- ===== src/App/Parts.antt =====
-- The constructors of the components: what they require of their configuration. A configuration is
-- never nil here; each of its parts is the test whether it is set.
use text.Mathlib.Text.{starts_with}
use spotted_network.Base.{ℕ, String, Bool, not, ◌&&◌, ◌||◌, List, ◌∷◌, str_eq, if◌then◌else◌}
use spotted_network.Base.Outcome.{ok, outcome, ◌>>=◌, ◌>>◌, pure, or_wrap, lift, modify}
use spotted_network.Config.{Config, given, require, validate}
use spotted_network.App.{World, Service, Building}

module _ {C : Type 0} (world : World C) where
  -- `LoadConfig`
  unfoldable pub load_config : String → Building C Config
  load_config path = do
    c ← lift (outcome (world.parse_config path))
    or_wrap (lift (validate world.addr_info_from_string c)) "invalid configuration"
    pure c

  -- `strings.TrimPrefix(s, "0x")`
  abbrev after_two : String → String
  after_two String.[] = String.[]
  after_two (String.◌∷◌ c String.[]) = String.[]
  after_two (String.◌∷◌ c (String.◌∷◌ d s)) = s

  abbrev pub trim_0x : String → String
  trim_0x s = if starts_with s "0x" then after_two s else s

  abbrev pub neither_or_both : String → String → Bool
  neither_or_both path key =
      (if str_eq path "" then str_eq key "" else not (str_eq key "")) || (given path && given key)

  unfoldable pub key_of_file : String → String → Building C ℕ
  key_of_file path password = do
    json ← or_wrap (lift (outcome (world.read_file path))) "failed to read signing key file"
    or_wrap (lift (outcome (world.decrypt_key json password))) "failed to decrypt signing key"

  unfoldable pub key_of_hex : String → Building C ℕ
  key_of_hex key = do
    bytes ←
        or_wrap (lift (outcome (world.decode_hex (trim_0x key))))
          "failed to decode private key hex string"
    or_wrap (lift (outcome (world.to_ecdsa bytes))) "failed to convert private key bytes to ECDSA"

  -- `NewLocalSigner`
  unfoldable pub new_local_signer : String → String → String → Building C ℕ
  unfolding key_of_file key_of_hex
  new_local_signer path key password = do
    lift (
        require (not (neither_or_both path key))
          "exactly one of SigningKeyPath or SigningKey must be provided" (ok tt))
    if given path then key_of_file path password else key_of_hex key

-- The goroutine of a component runs.
abbrev pub starts : {C : Type 0} → Service → Building C (Unit {0})
starts service = modify (λ a. record a { services = service ∷ a.services })

abbrev pub other_services : List Service → List Service
other_services List.[] = List.[]
other_services (Service.health_checker ∷ more) = other_services more
other_services (service ∷ more) = service ∷ other_services more

module _ {C : Type 0} where
  -- `NewEventListener`: the client and the repository
  unfoldable pub new_event_listener : Bool → Bool → Building C (Unit {0})
  new_event_listener client operators = do
    lift (
        require client "mainnet client not initialized"
          (require operators "operator repo not initialized" (ok tt)))
    starts Service.event_listener

  -- `NewConnectionGater`
  unfoldable pub new_connection_gater : Bool → Bool → Building C (Unit {0})
  new_connection_gater blacklist operators = lift (
      require blacklist "[ConnectionGater] blacklist repo is nil"
        (require operators "[ConnectionGater] operator repo is nil" (ok tt)))

  -- `NewEpochUpdator`
  unfoldable pub new_epoch_updator : Bool → Bool → Bool → Building C (Unit {0})
  new_epoch_updator operators client transactions = do
    lift (
        require operators "operatorRepo is nil"
          (require client "mainnetClient is nil" (require transactions "txManager is nil" (ok tt))))
    starts Service.epoch_updator

  -- `NewTaskProcessor`: the signer, the epoch state, three repositories, the chains, the topic
  unfoldable pub new_task_processor :
      Bool → Bool → Bool → Bool → Bool → Bool → Bool → Building C (Unit {0})
  new_task_processor signer epochs tasks operators responses chains topic = lift (
      require signer "[TaskProcessor] signer is nil" (
        require epochs "[TaskProcessor] epoch state querier is nil" (
          require tasks "[TaskProcessor] task repo is nil" (
            require operators "[TaskProcessor] operator repo is nil" (
              require responses "[TaskProcessor] consensus response repo is nil" (
                require chains "[TaskProcessor] chain manager is nil"
                  (require topic "[TaskProcessor] response topic is nil" (ok tt))))))))

  -- `Start` of the task processor
  unfoldable pub start_task_processor : Building C (Unit {0})
  start_task_processor = starts Service.task_processor

  -- `NewHandler` of the API
  unfoldable pub new_handler : Bool → Bool → Bool → Bool → Building C (Unit {0})
  new_handler processor chains tasks responses = lift (
      require processor "[API] Task processor not initialized" (
        require chains "[API] Chain manager not initialized" (
          require tasks "[API] Task repo not initialized"
            (require responses "[API] Consensus response repo not initialized" (ok tt)))))

  -- `NewHealthChecker`: the node and the ping service
  unfoldable pub new_health_checker : Bool → Bool → Building C (Unit {0})
  new_health_checker node pings = do
    lift (require node "node is nil" (require pings "ping service is nil" (ok tt)))
    starts Service.health_checker

  -- `Stop` of the health checker
  unfoldable pub stop_health_checker : Building C (Unit {0})
  stop_health_checker = modify (λ a. record a { services = other_services a.services })
