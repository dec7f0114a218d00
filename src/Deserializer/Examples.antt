-- ===== src/Deserializer/Examples.antt =====
-- The deserializer on a packet with a string and a number.
use actor_model_server.Base.{ℕ, ◌≤◌, length}
use actor_model_server.Deserializer.RoundTrip.{HaveTypes}
use actor_model_server.Deserializer.Soundness.{deserialize_sound}
use actor_model_server.Base.{◌≡◌, refl, none, some, List, [], ◌∷◌, ◌++◌, arith}
use actor_model_server.Deserializer.{
  Cursor, Arg, string, primitive, text, value, deserialize, deserialize_impl, deserialize_one,
  read_string, read_string_body, read_primitive,
}
use actor_model_server.Deserializer.Bounds.{Moved, deserialize_impl-Moved}
use actor_model_server.Deserializer.RoundTrip.{encode_all, deserialize-encode}

-- The string says that it has 9 bytes, and the packet has 2 of them.
abbrev short_packet : Cursor
short_packet = record { bytes = 9 ∷ 0 ∷ 104 ∷ 105 ∷ []; remaining = 4 }

short_packet_fails :
    deserialize_impl (string ∷ primitive 1 ∷ []) short_packet
    ≡ (none, record { bytes = 104 ∷ 105 ∷ []; remaining = 2 })
unfolding deserialize_impl deserialize_one read_string read_string_body read_primitive
short_packet_fails = refl

deserialize_impl-Moved_example :
    Moved short_packet (deserialize_impl (string ∷ primitive 1 ∷ []) short_packet).1
deserialize_impl-Moved_example = deserialize_impl-Moved (string ∷ primitive 1 ∷ []) short_packet

abbrev args : List Arg
args = text (104 ∷ 105 ∷ []) ∷ value (7 ∷ 1 ∷ []) ∷ []

deserialize-encode_example :
    deserialize (string ∷ primitive 2 ∷ []) (encode_all args ++ 3 ∷ []) 7 ≡ some args
deserialize-encode_example =
    deserialize-encode (string ∷ primitive 2 ∷ []) args (3 ∷ []) 7 (omega arith, (refl, tt))
      (omega arith)

accepted :
    deserialize (string ∷ primitive 2 ∷ []) (2 ∷ 0 ∷ 104 ∷ 105 ∷ 7 ∷ 1 ∷ 3 ∷ []) 7 ≡ some args
unfolding deserialize deserialize_impl deserialize_one read_string read_string_body read_primitive
accepted = refl

deserialize_sound_example :
    HaveTypes (string ∷ primitive 2 ∷ []) args
    × (length (encode_all args) ≤ 7)
    × ((rest : List ℕ) × (2 ∷ 0 ∷ 104 ∷ 105 ∷ 7 ∷ 1 ∷ 3 ∷ [] ≡ encode_all args ++ rest))
deserialize_sound_example =
    deserialize_sound (string ∷ primitive 2 ∷ []) (2 ∷ 0 ∷ 104 ∷ 105 ∷ 7 ∷ 1 ∷ 3 ∷ []) 7 args
      (omega arith) (omega arith) accepted
