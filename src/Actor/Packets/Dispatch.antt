-- ===== src/Actor/Packets/Dispatch.antt =====
-- A packet reaches the handler that was registered for its id, with the arguments that were sent.
use actor_model_server.Base.{
  ==_refl, ◌⊎◌, inl, inr, dec_lt, ℕ, ◌+◌, ◌/◌, ◌%◌, ◌≤◌, ◌<◌, ◌≡◌, refl, ap, ◌∙◌, false, none, some,
  List, [], ◌∷◌, ◌++◌, take, drop, length, if◌then◌else◌, arith, le→not-ltb, lt→ltb, ◌==◌, inl, inr,
}
use actor_model_server.Base.UnorderedMap.{
  contains-assign, Map, find, contains, assign, find-assign, contains-assign,
}
use actor_model_server.Deserializer.{Arg, little_endian, deserialize}
use actor_model_server.Deserializer.RoundTrip.{encode_all, HaveTypes, deserialize-encode}
use actor_model_server.Actor.Packets.{
  NetBufferOps, NetBufferLaws, MessageFactory, ignored, handle, register_packet_handler, message_of,
  apply_factory, find_function_object, create_message_from_packet,
}

-- A 32-bit id in memory.
abbrev pub le32 : ℕ → List ℕ
le32 n = n % 256 ∷ n / 256 % 256 ∷ n / 65536 % 256 ∷ n / 16777216 ∷ []

le32_value : (n : ℕ) → little_endian (le32 n) ≡ n
le32_value n = omega arith

-- A handler for an id that has none is found under its id afterwards, every other id finds what it
-- found before, and from then on a second handler for the id is refused.
pub find-register_packet_handler :
    {H : Type 0} (id k : ℕ) (f g : MessageFactory H) (factories : Map (MessageFactory H))
    → contains id factories ≡ false
    → (after : Map (MessageFactory H)) × (register_packet_handler id f factories ≡ some after)
      × (find k after ≡ (if id == k then some f else find k factories))
      × (register_packet_handler id g after ≡ none)
unfolding register_packet_handler
find-register_packet_handler id k f g factories h = (
  assign id f factories,
  rw h refl,
  find-assign id k f factories,
  rw (contains-assign id id f factories, ==_refl id) refl,
)

module _ {H : Type 0} (ops : NetBufferOps) (laws : NetBufferLaws ops) where
  open ops use {Buffer, get_use_size, get_read_buffer_ptr, read_packet_id}

  create_long :
      (b : Buffer) (factories : Map (MessageFactory H))
      → 4 ≤ get_use_size b
      → create_message_from_packet ops b factories
        ≡ find_function_object ops (read_packet_id b).0 (read_packet_id b).1 factories
  unfolding create_message_from_packet
  create_long b factories h = rw (le→not-ltb (get_use_size b) 4 h) refl

  find_function_object_found :
      (id : ℕ) (b : Buffer) (factories : Map (MessageFactory H)) (f : MessageFactory H)
      → find id factories ≡ some f
      → find_function_object ops id b factories ≡ some (apply_factory ops f b)
  unfolding find_function_object
  find_function_object_found id b factories f e = rw (e, find_function_object)

  -- A packet that holds a registered id and then arguments of the handler's types becomes the
  -- message that calls this handler with these arguments, whatever bytes follow them.
  pub create_message_from_packet_dispatches :
      (b : Buffer) (factories : Map (MessageFactory H)) (id : ℕ) (f : MessageFactory H)
      (args : List Arg) (rest : List ℕ)
      → find id factories ≡ some f
      → HaveTypes f.types args
      → get_read_buffer_ptr b ≡ le32 id ++ encode_all args ++ rest
      → 4 + length (encode_all args) ≤ get_use_size b
      → create_message_from_packet ops b factories ≡ some (handle f.handler args)
  unfolding apply_factory message_of
  create_message_from_packet_dispatches b factories id f args rest found typed layout fits =
      create_long b factories (omega arith)
      ∙ find_function_object_found _ _ factories f (rw reads_id found)
      ∙ rw (rest_of, parsed) refl
    where
      r :
          ((read_packet_id b).0 ≡ little_endian (take 4 (get_read_buffer_ptr b)))
          × (get_read_buffer_ptr (read_packet_id b).1 ≡ drop 4 (get_read_buffer_ptr b))
          × (get_use_size (read_packet_id b).1 + 4 ≡ get_use_size b)
      r = laws.reads b (omega arith)

      reads_id : (read_packet_id b).0 ≡ id
      reads_id = r.0 ∙ ap (λ (l : List ℕ). little_endian (take 4 l)) layout ∙ le32_value id

      rest_of : get_read_buffer_ptr (read_packet_id b).1 ≡ encode_all args ++ rest
      rest_of = r.1 ∙ ap (drop 4) layout

      parsed :
          deserialize f.types (encode_all args ++ rest) (get_use_size (read_packet_id b).1)
          ≡ some args
      parsed = deserialize-encode f.types args rest _ typed (omega (arith, r.2))

  -- A packet of fewer than four bytes, or of an id that nothing is registered for, makes no
  -- message.
  pub create_message_from_packet_refuses :
      (b : Buffer) (factories : Map (MessageFactory H))
      → (get_use_size b < 4) ⊎ (find (read_packet_id b).0 factories ≡ none)
      → create_message_from_packet ops b factories ≡ none
  unfolding create_message_from_packet find_function_object
  create_message_from_packet_refuses b factories (inl h) = rw (lt→ltb (get_use_size b) 4 h) refl
  create_message_from_packet_refuses b factories (inr e) = elim (dec_lt (get_use_size b) 4) [
    | yes h ↦ rw (lt→ltb (get_use_size b) 4 h) refl
    | no h ↦ create_long b factories (omega arith) ∙ rw (e, find_function_object) refl
  ]

  -- A packet whose arguments cannot be read makes a message that does nothing.
  pub create_message_from_packet_ignores :
      (b : Buffer) (factories : Map (MessageFactory H)) (f : MessageFactory H)
      → 4 ≤ get_use_size b
      → find (read_packet_id b).0 factories ≡ some f
      → deserialize f.types
          (get_read_buffer_ptr (read_packet_id b).1)
          (get_use_size (read_packet_id b).1)
        ≡ none
      → create_message_from_packet ops b factories ≡ some ignored
  unfolding apply_factory message_of
  create_message_from_packet_ignores b factories f h e bad =
      create_long b factories h ∙ find_function_object_found _ _ factories f e ∙ rw bad refl
