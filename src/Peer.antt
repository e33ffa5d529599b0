-- ===== src/Peer.antt =====
-- `PeerIDToP2PKey` of pkg/common/utils.go: the key that a peer is registered under.
use spotted_network.Base.{◌-◌, ◌/◌, ◌%◌, String, [], ◌∷◌}
use Prim.Native.String
use spotted_network.Base.Lists.{length, drop}
use spotted_network.Base.Outcome.{Outcome, wrapped, ok, err, Reply}
use spotted_network.Signer.{Bytes}
use spotted_network.Node.{Env}
use spotted_network.Numeric.Decimal.{hex_digit}

-- `hex.EncodeToString`, whose letters are small
unfoldable pub encode_hex : Bytes → String
encode_hex [] = ""
encode_hex (b ∷ bs) =
    String.◌∷◌ (hex_digit (b / 16)) (String.◌∷◌ (hex_digit (b % 16)) (encode_hex bs))

-- `hash[len(hash)-20:]`; a Keccak hash has 32 bytes
abbrev last20 : Bytes → Bytes
last20 hash = drop (length hash - 20) hash

unfoldable pub peer_id_to_p2p_key : Env → String → Outcome String
peer_id_to_p2p_key env peer = elim (env.extract_public_key peer) [
  | Reply.fault e ↦ err (wrapped "failed to extract public key" e)
  | Reply.value key ↦ ok (String.◌++◌ "0x" (encode_hex (last20 (env.crypto.keccak256 key))))
]
