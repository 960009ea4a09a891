-- ===== src/Utils/Marshal/RoundTrip.antt =====
-- Marshalling and unmarshalling undo each other.
use flightsim.Prelude.{ℕ, ◌+◌, ◌^◌, ◌<◌, ◌≡◌, refl, [], ◌∷◌, ◌++◌, arith, length, All}
use flightsim.Prelude.Bytes.{Bytes, IsByte}
use flightsim.Utils.Marshal.{
  marshal_uint32, unmarshal_uint32, marshal_uint64, unmarshal_uint64, marshal_string,
}

pub length-marshal_uint32 : (i : ℕ) → length (marshal_uint32 i) ≡ 4
unfolding marshal_uint32
length-marshal_uint32 i = refl

pub length-marshal_uint64 : (i : ℕ) → length (marshal_uint64 i) ≡ 8
unfolding marshal_uint64
length-marshal_uint64 i = refl

pub unmarshal_uint32-marshal_uint32 : (i : ℕ) → i < 2 ^ 32 → unmarshal_uint32 (marshal_uint32 i) ≡ i
unfolding marshal_uint32 unmarshal_uint32
unmarshal_uint32-marshal_uint32 i h = omega arith

pub unmarshal_uint64-marshal_uint64 : (i : ℕ) → i < 2 ^ 64 → unmarshal_uint64 (marshal_uint64 i) ≡ i
unfolding marshal_uint64 unmarshal_uint64
unmarshal_uint64-marshal_uint64 i h = omega arith

pub unmarshal_uint32-lt : (b : Bytes) → length b ≡ 4 → All IsByte b → unmarshal_uint32 b < 2 ^ 32
unfolding unmarshal_uint32
unmarshal_uint32-lt (b0 ∷ b1 ∷ b2 ∷ b3 ∷ []) e h = omega arith
unmarshal_uint32-lt _ e h = absurd (omega arith)

pub marshal_uint32-unmarshal_uint32 :
    (b : Bytes) → length b ≡ 4 → All IsByte b → marshal_uint32 (unmarshal_uint32 b) ≡ b
unfolding unmarshal_uint32 marshal_uint32
marshal_uint32-unmarshal_uint32 (b0 ∷ b1 ∷ b2 ∷ b3 ∷ []) e h = ground arith
marshal_uint32-unmarshal_uint32 _ e h = absurd (omega arith)

pub length-marshal_string : (s : Bytes) → length (marshal_string s) ≡ 4 + length s
unfolding marshal_string marshal_uint32
length-marshal_string [] = omega arith
length-marshal_string (c ∷ s) = omega arith

-- The empty string is no special case on the wire.
pub marshal_string_lem :
    (s : Bytes) → length s < 2 ^ 32 → marshal_string s ≡ marshal_uint32 (length s) ++ s
unfolding marshal_string marshal_uint32
marshal_string_lem [] h = refl
marshal_string_lem (c ∷ s) h = ground arith

pub unmarshal_uint64-lt : (b : Bytes) → length b ≡ 8 → All IsByte b → unmarshal_uint64 b < 2 ^ 64
unfolding unmarshal_uint64
unmarshal_uint64-lt (b0 ∷ b1 ∷ b2 ∷ b3 ∷ b4 ∷ b5 ∷ b6 ∷ b7 ∷ []) e h = omega arith
unmarshal_uint64-lt _ e h = absurd (omega arith)

pub marshal_uint64-unmarshal_uint64 :
    (b : Bytes) → length b ≡ 8 → All IsByte b → marshal_uint64 (unmarshal_uint64 b) ≡ b
unfolding unmarshal_uint64 marshal_uint64
marshal_uint64-unmarshal_uint64 (b0 ∷ b1 ∷ b2 ∷ b3 ∷ b4 ∷ b5 ∷ b6 ∷ b7 ∷ []) e h = ground arith
marshal_uint64-unmarshal_uint64 _ e h = absurd (omega arith)
