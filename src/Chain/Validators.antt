-- ===== src/Chain/Validators.antt =====
-- src/chain/client.rs: `PulsarClient::validator_public_keys`. The node is what it answers for a height,
-- or nothing when the transport fails or takes too long; `to_height` is the conversion into
-- tendermint's `Height`.
use pulsar_verifier.Prelude.{
  if◌then◌else◌, [], none, some, ◌∷◌, ◌++◌, ◌||◌, ℕ, List, Option, not, nat_beq, length, contains,
  bytes_eq,
}
use pulsar_verifier.Error.{ok, err, Result, chain}
use pulsar_verifier.Prelude.Int.{ℤ, negsuc, pos}

-- The answer to the query of the validators of a height.
pub record ValidatorsResponse : Type 0 where
  pub block_height : ℕ
  pub total : ℤ
  pub public_keys : List (List ℕ)

abbrev pub ValidatorNode : Type 0
ValidatorNode = ℕ → Option ValidatorsResponse

-- The loop over the validators; `unique` is its set.
unfoldable pub unique_keys_from : List (List ℕ) → List (List ℕ) → Result (List (List ℕ))
unique_keys_from unique [] = ok unique
unique_keys_from unique (key ∷ keys) =
    let rest = unique_keys_from (unique ++ (key ∷ [])) keys in
    if not (nat_beq (length key) 32) || contains unique key then err chain else rest

-- The checks on the answer.
unfoldable pub check_validators : ℕ → ValidatorsResponse → Result (List (List ℕ))
unfolding unique_keys_from
check_validators height response =
    if not (nat_beq response.block_height height) then err chain else elim response.total [
      | negsuc n ↦ err chain
      | pos total ↦
          if not (nat_beq total (length response.public_keys))
          then err chain
          else unique_keys_from [] response.public_keys
    ]

unfoldable pub validator_public_keys : (ℕ → Option ℕ) → ValidatorNode → ℕ → Result (List (List ℕ))
unfolding check_validators
validator_public_keys to_height node height = elim (to_height height) [
  | none ↦ err chain
  | some h ↦ elim (node h) [ none ↦ err chain | some response ↦ check_validators h response ]
]
