-- ===== src/Block/Runs.antt =====
-- Runs of the wire format, and its theorems at concrete inputs.
use cryptopeg.Prelude.{ℕ, ◌≡◌, ◌++◌, refl, arith, List, [], ◌∷◌}
use cryptopeg.Errors.{Error, ok, err}
use cryptopeg.Block.{BlockHeader, zero_signature}
use cryptopeg.Block.Encode.{serialize_header, serialize}
use cryptopeg.Block.Decode.{deserialize_header, deserialize}
use cryptopeg.Block.Format.{quorum_bytes, IsHeaderFront}
use cryptopeg.Serial.{read_u32, require_remaining}
use cryptopeg.Serial.Format.{u32_bytes}
use cryptopeg.Block.HeaderTrip.{old_header_leaves_quorum}
use cryptopeg.Block.WholeTrip.{deserialize-serialize}
use cryptopeg.Block.Sample.{any_point, key, header, block, block-IsSendable}

-- No bytes are no block.
nothing_run : deserialize any_point [] ≡ err Error.read_past_end
unfolding deserialize deserialize_header read_u32 require_remaining
nothing_run = refl

deserialize-serialize_example :
    (bytes : List ℕ) × (serialize block ≡ ok bytes)
    × (deserialize any_point (bytes ++ (1 ∷ 2 ∷ [])) ≡ ok block)
deserialize-serialize_example = deserialize-serialize any_point block (1 ∷ 2 ∷ []) block-IsSendable

abbrev old_header : BlockHeader
old_header = record header { version = 2 }

old_header-IsHeaderFront : IsHeaderFront old_header
old_header-IsHeaderFront = record {
  version = omega arith;
  height = omega arith;
  prev = refl;
  root = refl;
  time = omega arith;
  nonce = omega arith;
  key = refl;
  signature = refl;
}

old_header_leaves_quorum_example :
    deserialize_header (serialize_header [] old_header ++ [])
    ≡ ok (
      record old_header { quorum_pubkeys = []; quorum_signatures = [] },
      u32_bytes 1 ++ (quorum_bytes (key ∷ []) (zero_signature ∷ []) ++ []),
    )
old_header_leaves_quorum_example =
    old_header_leaves_quorum old_header [] (omega arith) old_header-IsHeaderFront (omega arith)
