-- ===== src/Ledger/Fees.antt =====
-- The category of a fee: offchain/app-core/src/fees.ts. The hash is viem's; `keccak` is the text
-- of `keccak256(stringToHex(v))`.
use Prim.Native.Char.{code}
use cpredict.Prelude.{
  ℕ, ◌+◌, Bool, true, false, ◌&&◌, Option, some, List, [], ◌∷◌, String, leb, ◌==◌, if◌then◌else◌,
  any,
}
use cpredict.Ledger.Json.{Json, text}

pub data FeeCategory : Type 0 where
  creator protocol unknown : FeeCategory

lower : ℕ → ℕ
lower c = if leb b'A' c && leb c b'Z' then c + 32 else c

-- The tests of two texts in lower case. Only letters of ASCII are lowered, which is enough: no other
-- letter has a digit or a letter of a hash for its lower case.
unfoldable pub same_lowered : String → String → Bool
unfolding lower
same_lowered String.[] String.[] = true
same_lowered (String.◌∷◌ c s) (String.◌∷◌ d t) =
    lower (code c) == lower (code d) && same_lowered s t
same_lowered _ _ = false

abbrev pub creator_kinds : List String
creator_kinds = "CREATOR_RAKE" ∷ "CREATOR_C2C" ∷ []

abbrev pub protocol_kinds : List String
protocol_kinds = "MARKET_CREATION" ∷ "PROTOCOL_RAKE" ∷ "PLATFORM_C2C" ∷ []

unfoldable pub fee_category : (String → String) → Option Json → FeeCategory
unfolding same_lowered
fee_category keccak (some (text kind)) =
    if any (λ v. same_lowered (keccak v) kind) creator_kinds
    then creator
    else if any (λ v. same_lowered (keccak v) kind) protocol_kinds
    then protocol
    else unknown
fee_category keccak _ = unknown
