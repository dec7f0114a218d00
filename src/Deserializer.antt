-- ===== src/Deserializer.antt =====
-- ActorModelServer/ActorModelServer/Actor.h, namespace Deserializer: the arguments of a packet
-- handler, read from the bytes of a packet. A cursor is the memory from `data` on with `remaining`;
-- it comes back beside a failure too, since the code advances it by reference. A primitive value
-- is the bytes that `memcpy` copies. The buffer of `Deserialize` (`NetBuffer`, not in this
-- repository) is given by what is behind its read pointer and its use size.
pub mod Bounds
pub mod RoundTrip
pub mod Soundness
mod Examples
use actor_model_server.Base.{
  ℕ, ◌+◌, ◌-◌, ◌*◌, Option, none, some, List, [], ◌∷◌, take, drop, ltb, if◌then◌else◌,
}

pub record Cursor : Type 0 where
  pub bytes : List ℕ
  pub remaining : ℕ

-- A parameter type of a handler: `std::string`, or a type `T` by `sizeof(T)`.
pub data ArgType : Type 0 where
  string : ArgType
  primitive : ℕ → ArgType

pub data Arg : Type 0 where
  text : List ℕ → Arg
  value : List ℕ → Arg

abbrev pub advance : ℕ → Cursor → Cursor
advance n c = record { bytes = drop n c.bytes; remaining = c.remaining - n }

-- The value of bytes in memory on the little-endian machines that Windows runs on.
abbrev pub little_endian : List ℕ → ℕ
little_endian [] = 0
little_endian (b ∷ bs) = b + 256 * little_endian bs

unfoldable pub read_primitive : ℕ → Cursor → Option (List ℕ) × Cursor
read_primitive size c =
    if ltb c.remaining size then (none, c) else (some (take size c.bytes), advance size c)

-- `ReadString` after the length is read.
unfoldable pub read_string_body : ℕ → Cursor → Option (List ℕ) × Cursor
read_string_body length c =
    if ltb c.remaining length then (none, c) else (some (take length c.bytes), advance length c)

unfoldable pub read_string : Cursor → Option (List ℕ) × Cursor
read_string c =
    let (length_opt, c') = read_primitive 2 c in
    elim length_opt [ none ↦ (none, c') | some raw ↦ read_string_body (little_endian raw) c' ]

unfoldable pub deserialize_one : ArgType → Cursor → Option Arg × Cursor
deserialize_one string c =
    let (s, c') = read_string c in (elim s [ none ↦ none | some bs ↦ some (text bs) ], c')
deserialize_one (primitive size) c =
    let (v, c') = read_primitive size c in (elim v [ none ↦ none | some bs ↦ some (value bs) ], c')

-- `std::tuple_cat` of the first result and the rest.
abbrev pub prepend : Arg → Option (List Arg) → Option (List Arg)
prepend a none = none
prepend a (some rest) = some (a ∷ rest)

unfoldable pub deserialize_impl : List ArgType → Cursor → Option (List Arg) × Cursor
deserialize_impl [] c = (some [], c)
deserialize_impl (t ∷ []) c =
    let (one, c') = deserialize_one t c in (elim one [ none ↦ none | some a ↦ some (a ∷ []) ], c')
deserialize_impl (t ∷ u ∷ ts) c =
    let (first, c') = deserialize_one t c in
    let (rest, c'') = deserialize_impl (u ∷ ts) c' in
    elim first [ none ↦ (none, c') | some a ↦ (prepend a rest, c'') ]

unfoldable pub deserialize : List ArgType → List ℕ → ℕ → Option (List Arg)
deserialize types bytes use_size =
    (deserialize_impl types (record { bytes = bytes; remaining = use_size })).0
