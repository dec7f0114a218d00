-- ===== src/Deserializer/RoundTrip.antt =====
-- The wire format of handler arguments, stated on its own, and the deserializer against it.
use actor_model_server.Base.{
  ℕ, ◌+◌, ◌-◌, ◌*◌, ◌/◌, ◌%◌, ◌≤◌, ◌<◌, ◌≡◌, refl, Option, some, List, [], ◌∷◌, ◌++◌, take, arith,
  length, length-append, take_exact, drop_exact, append_assoc, append-nil, le→not-ltb, ap, ◌∙◌,
}
use actor_model_server.Deserializer.{
  Cursor, ArgType, Arg, string, primitive, text, value, advance, little_endian, read_primitive,
  read_string_body, read_string, deserialize_one, deserialize_impl, deserialize, prepend,
}

-- A string is its length in two bytes, low byte first, and its bytes; any other value is its bytes.
abbrev pub encode : Arg → List ℕ
encode (text bs) = length bs % 256 ∷ length bs / 256 ∷ bs
encode (value bs) = bs

abbrev pub encode_all : List Arg → List ℕ
encode_all [] = []
encode_all (a ∷ rest) = encode a ++ encode_all rest

abbrev pub HasType : ArgType → Arg → Type 0
HasType string (text bs) = length bs < 65536
HasType (primitive size) (value bs) = length bs ≡ size
HasType _ _ = ⊥

abbrev pub HaveTypes : List ArgType → List Arg → Type 0
HaveTypes [] [] = Unit
HaveTypes (t ∷ ts) (a ∷ rest) = HasType t a × HaveTypes ts rest
HaveTypes _ _ = ⊥

abbrev at_bytes : List ℕ → ℕ → Cursor
at_bytes bytes remaining = record { bytes = bytes; remaining = remaining }

read_string_body-append :
    (bs rest : List ℕ) (r : ℕ)
    → length bs ≤ r
    → read_string_body (length bs) (at_bytes (bs ++ rest) r)
      ≡ (some bs, at_bytes rest (r - length bs))
unfolding read_string_body
read_string_body-append bs rest r h = rw (
  le→not-ltb r (length bs) h,
  take_exact bs rest (length bs) refl,
  drop_exact bs rest (length bs) refl,
)

read_primitive_fits :
    (size : ℕ) (c : Cursor)
    → size ≤ c.remaining
    → read_primitive size c ≡ (some (take size c.bytes), advance size c)
unfolding read_primitive
read_primitive_fits size c h = rw (le→not-ltb c.remaining size h)

read_string-some :
    (raw : List ℕ) (c c' : Cursor)
    → read_primitive 2 c ≡ (some raw, c')
    → read_string c ≡ read_string_body (little_endian raw) c'
unfolding read_string
read_string-some raw c c' e = ground arith

deserialize_impl-some :
    (t u : ArgType) (ts : List ArgType) (a : Arg) (c c' : Cursor)
    → deserialize_one t c ≡ (some a, c')
    → deserialize_impl (t ∷ u ∷ ts) c
      ≡ (prepend a (deserialize_impl (u ∷ ts) c').0, (deserialize_impl (u ∷ ts) c').1)
unfolding deserialize_impl
deserialize_impl-some t u ts a c c' e = ground arith

length_bytes : (n : ℕ) → n % 256 + 256 * (n / 256 + 256 * 0) ≡ n
length_bytes n = omega arith

read_string-encode :
    (bs rest : List ℕ) (r : ℕ)
    → length bs + 2 ≤ r
    → read_string (at_bytes (encode (text bs) ++ rest) r)
      ≡ (some bs, at_bytes rest (r - 2 - length bs))
read_string-encode bs rest r h =
    read_string-some _ _ _
      (read_primitive_fits 2 (at_bytes (encode (text bs) ++ rest) r) (omega arith))
    ∙ rw (length_bytes (length bs)) (read_string_body-append bs rest (r - 2) (omega arith))

deserialize_one-encode :
    (t : ArgType) (a : Arg) (rest : List ℕ) (r : ℕ)
    → HasType t a
    → length (encode a) ≤ r
    → deserialize_one t (at_bytes (encode a ++ rest) r)
      ≡ (some a, at_bytes rest (r - length (encode a)))
unfolding deserialize_one
deserialize_one-encode string (value bs) rest r h fits = elim h [ ]
deserialize_one-encode (primitive size) (text bs) rest r h fits = elim h [ ]
deserialize_one-encode string (text bs) rest r h fits =
    rw (read_string-encode bs rest r (omega arith)) (ground arith)
deserialize_one-encode (primitive size) (value bs) rest r h fits = rw (
  read_primitive_fits size (at_bytes (bs ++ rest) r) (omega arith),
  take_exact bs rest size (omega arith),
  drop_exact bs rest size (omega arith),
  h,
)

deserialize_impl-encode :
    (ts : List ArgType) (args : List Arg) (rest : List ℕ) (r : ℕ)
    → HaveTypes ts args
    → length (encode_all args) ≤ r
    → deserialize_impl ts (at_bytes (encode_all args ++ rest) r)
      ≡ (some args, at_bytes rest (r - length (encode_all args)))
unfolding deserialize_impl
deserialize_impl-encode [] [] rest r h fits = ground arith
deserialize_impl-encode [] (a ∷ args) rest r h fits = elim h [ ]
deserialize_impl-encode (t ∷ ts) [] rest r h fits = elim h [ ]
deserialize_impl-encode (t ∷ []) (a ∷ b ∷ args) rest r h fits = elim h.1 [ ]
deserialize_impl-encode (t ∷ []) (a ∷ []) rest r h fits = rw (
  append-nil (encode a),
  deserialize_one-encode t a rest r h.0 (omega (arith, ap length (append-nil (encode a)))),
)
deserialize_impl-encode (t ∷ u ∷ ts) (a ∷ args) rest r h fits =
    let size = length-append (encode a) (encode_all args) in
    let first = deserialize_one-encode t a (encode_all args ++ rest) r h.0 (omega (arith, size)) in
    let others =
      deserialize_impl-encode (u ∷ ts) args rest (r - length (encode a)) h.1
        (omega (arith, size)) in
    rw (append_assoc (encode a) (encode_all args) rest)
      (deserialize_impl-some t u ts a _ _ first ∙ rw others (ground (arith, size)))

-- Arguments of the handler's types that were encoded come back whole, in order, from the front of
-- any packet that holds them, whatever follows.
pub deserialize-encode :
    (ts : List ArgType) (args : List Arg) (rest : List ℕ) (use_size : ℕ)
    → HaveTypes ts args
    → length (encode_all args) ≤ use_size
    → deserialize ts (encode_all args ++ rest) use_size ≡ some args
unfolding deserialize
deserialize-encode ts args rest use_size h fits =
    ap (λ (r : Option (List Arg) × Cursor). r.0)
      (deserialize_impl-encode ts args rest use_size h fits)
