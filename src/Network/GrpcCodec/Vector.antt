-- ===== src/Network/GrpcCodec/Vector.antt =====
-- The vector that GrpcDecoder::Decode pushes its messages to. A LengthPrefixedMessage owns its
-- Buffer, deletes it when destroyed (polaris/network/grpc/codec.h), and is copied with the pointer
-- alone, so when the vector moves to a larger room its old entries are destroyed and the Buffers of
-- their copies are gone. `grows n` says whether std::vector takes a larger room at the push onto n
-- entries.
use polaris_cpp.Base.{
  ℕ, zero, suc, Bool, true, false, ◌||◌, none, some, List, [], ◌∷◌, ◌++◌, length, if◌then◌else◌,
}
use polaris_cpp.Network.GrpcCodec.{LengthPrefixedMessage}

-- An entry, and whether the Buffer that it points to has been deleted.
pub record Stored : Type 0 where
  pub message : LengthPrefixedMessage
  pub freed : Bool

-- A new entry, whose Buffer the message was given while it was decoded.
abbrev pub new_entry : LengthPrefixedMessage → Stored
new_entry msg = record { message = msg; freed = false }

-- What the destructor of the entry's original does to the copy: nothing for the null pointer.
abbrev pub destroyed : Stored → Stored
destroyed x = elim x.message.data_ [ none ↦ x | some d ↦ record x { freed = true } ]

abbrev pub all_destroyed : List Stored → List Stored
all_destroyed [] = []
all_destroyed (x ∷ v) = destroyed x ∷ all_destroyed v

unfoldable pub push_back : (ℕ → Bool) → List Stored → LengthPrefixedMessage → List Stored
push_back grows v msg = (if grows (length v) then all_destroyed v else v) ++ new_entry msg ∷ []

-- The vector after the messages that Decode pushed, in their order.
unfoldable pub push_all : (ℕ → Bool) → List Stored → List LengthPrefixedMessage → List Stored
unfolding push_back
push_all grows v [] = v
push_all grows v (msg ∷ msgs) = push_all grows (push_back grows v msg) msgs

-- Whether one of `n` pushes, the first of them onto `size` entries, takes a larger room.
abbrev pub some_growth : (ℕ → Bool) → ℕ → ℕ → Bool
some_growth grows size zero = false
some_growth grows size (suc n) = grows size || some_growth grows (suc size) n
