-- ===== src/Chain/Client.antt =====
-- src/chain/client.rs: what the client makes of the node's answers. The transport (`tendermint_rpc`)
-- is a parameter: its answer, or nothing when it fails or takes too long.
use pulsar_verifier.Prelude.{
  if◌then◌else◌, [], none, some, true, false, ◌∷◌, ◌&&◌, ◌==◌, List, ℕ, Option, Bool, suc, leb, not,
  zero, length, ltb, nat_eq,
}
use pulsar_verifier.Error.{ok, err, Result, chain}

-- The answer of the node's endpoint `broadcast_tx_sync`. Texts are their UTF-8 bytes.
pub record BroadcastResponse : Type 0 where
  pub hash : List ℕ
  pub code : ℕ
  pub codespace : List ℕ
  pub log : List ℕ

pub record BroadcastReceipt : Type 0 where
  pub transaction_hash : List ℕ
  pub code : ℕ
  pub codespace : List ℕ
  pub log : List ℕ

-- `str::is_char_boundary`: the start, the end, or a byte that continues no character.
unfoldable pub is_char_boundary : List ℕ → ℕ → Bool
is_char_boundary bytes zero = true
is_char_boundary [] (suc n) = false
is_char_boundary (b ∷ []) (suc zero) = true
is_char_boundary (b ∷ c ∷ bytes) (suc zero) = not (leb 128 c && ltb c 192)
is_char_boundary (b ∷ bytes) (suc (suc n)) = is_char_boundary bytes (suc n)

-- The loop of `bounded_text`.
unfoldable pub boundary_from : List ℕ → ℕ → ℕ
unfolding is_char_boundary
boundary_from value zero = zero
boundary_from value (suc n) =
    let lower = boundary_from value n in if is_char_boundary value (suc n) then suc n else lower

unfoldable pub truncate : ℕ → List ℕ → List ℕ
truncate zero bytes = []
truncate (suc n) [] = []
truncate (suc n) (b ∷ bytes) = b ∷ truncate n bytes

unfoldable pub bounded_text : List ℕ → ℕ → List ℕ
unfolding boundary_from truncate
bounded_text value max_bytes =
    if leb (length value) max_bytes then value else truncate (boundary_from value max_bytes) value

unfoldable pub broadcast_tx_sync : Option BroadcastResponse → Result BroadcastReceipt
unfolding bounded_text
broadcast_tx_sync none = err chain
broadcast_tx_sync (some response) =
    if length response.hash == 32
    then ok (record {
      transaction_hash = response.hash;
      code = response.code;
      codespace = bounded_text response.codespace 64;
      log = bounded_text response.log 512;
    })
    else err chain
