-- ===== src/Audit/MerkleRoot.antt =====
-- packages/runtime/src/audit/MerkleRootService.ts: one hash over all events of a log. SHA-256, the order
-- of texts and the text of an event are parameters.
use Prim.Native.String.{◌++◌ as join}
pub mod Roots
mod Examples
use sovr_protocol.Prelude.{
  ℕ, zero, suc, ◌≡◌, String, Bool, true, false, Option, none, some, List, [], ◌∷◌, map, length,
  if◌then◌else◌,
}
use sovr_protocol.Prelude.Sort.{sort}
use sovr_protocol.Server.EventStore.{Envelope}

-- `hash` is SHA-256 in hexadecimal digits.
pub record MerkleEnvironment : Type 0 where
  pub hash : String → String
  pub before : String → String → Bool
  pub stringify : Envelope → String
  pub now : String

pub record MerkleRootResult : Type 0 where
  pub event_count : ℕ
  pub root_hash : String
  pub generated_at : String
  pub algorithm : String

module _ (env : MerkleEnvironment) where
  abbrev pub joined : List String → String
  joined [] = ""
  joined (x ∷ xs) = join x (joined xs)

  unfoldable pub hash_concat : String → String → String
  hash_concat left right = env.hash (joined (sort env.before (left ∷ right ∷ [])))

  unfoldable pub hash_empty : String
  hash_empty = hash_concat (env.hash "") (env.hash "")

  -- One round: the hashes of the pairs, the last leaf with itself where it has no partner.
  unfoldable pub pair_up : List String → List String
  pair_up [] = []
  pair_up (x ∷ []) = hash_concat x x ∷ []
  pair_up (x ∷ y ∷ leaves) = hash_concat x y ∷ pair_up leaves

  -- No answer where the rounds do not do.
  unfoldable pub build_merkle_tree : ℕ → List String → Option String
  build_merkle_tree rounds (x ∷ []) = some x
  build_merkle_tree zero leaves = none
  build_merkle_tree (suc rounds) leaves = build_merkle_tree rounds (pair_up leaves)

  abbrev pub result : ℕ → String → MerkleRootResult
  result count root = record {
    event_count = count;
    root_hash = root;
    generated_at = env.now;
    algorithm = "SHA-256";
  }

  abbrev pub counted : ℕ → Option String → Option MerkleRootResult
  counted count none = none
  counted count (some root) = some (result count root)

  abbrev pub leaves_of : List Envelope → List String
  leaves_of events = map (λ e. env.hash (env.stringify e)) events

  unfoldable pub compute : List Envelope → Option MerkleRootResult
  compute [] = some (result 0 hash_empty)
  compute (e ∷ events) =
      counted (length (e ∷ events))
        (build_merkle_tree (length (e ∷ events)) (leaves_of (e ∷ events)))
