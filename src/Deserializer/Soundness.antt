-- ===== src/Deserializer/Soundness.antt =====
-- The deserializer accepts nothing but encodings: what it gives, encoded again, is what it has read.
use actor_model_server.Base.{
  ℕ, zero, suc, ◌/◌, ◌%◌, ◌≤◌, ◌<◌, ◌≡◌, refl, sym, ap, ◌∙◌, Option, some, List, [], ◌∷◌, ◌++◌,
  take, drop, length, length-take, length-drop, take-append-drop, append_assoc, arith, All,
  Option-cases, Bool-cases, inl, inr, ltb, not-ltb→le, append-nil, subst, length-append,
}
use actor_model_server.Deserializer.{
  Cursor, ArgType, Arg, string, primitive, text, value, advance, little_endian, read_primitive,
  read_string_body, read_string, deserialize_one, deserialize_impl, deserialize,
}
use actor_model_server.Deserializer.Bounds.{deserialize_impl-Moved}
use actor_model_server.Deserializer.RoundTrip.{encode, encode_all, HasType, HaveTypes}

abbrev pub IsByte : ℕ → Type 0
IsByte b = b < 256

-- The memory behind the cursor has the bytes that remain.
abbrev pub IsBacked : Cursor → Type 0
IsBacked c = (c.remaining ≤ length c.bytes) × All IsByte c.bytes

-- `front` has been read of `c`, and `c'` is behind it.
abbrev Read : Cursor → List ℕ → Cursor → Type 0
Read c front c' = (c.bytes ≡ front ++ c'.bytes) × IsBacked c'

All-take : (n : ℕ) (bs : List ℕ) → All IsByte bs → All IsByte (take n bs)
All-take zero bs h = tt
All-take (suc n) [] h = tt
All-take (suc n) (b ∷ bs) h = (h.0, All-take n bs h.1)

All-drop : (n : ℕ) (bs : List ℕ) → All IsByte bs → All IsByte (drop n bs)
All-drop zero bs h = h
All-drop (suc n) [] h = tt
All-drop (suc n) (b ∷ bs) h = All-drop n bs h.1

advance-Read :
    (n : ℕ) (c : Cursor) → n ≤ c.remaining → IsBacked c → Read c (take n c.bytes) (advance n c)
advance-Read n c fits backed = (
  sym (take-append-drop n c.bytes),
  (omega (arith, length-drop n c.bytes), All-drop n c.bytes backed.1),
)

read_primitive_sound :
    (n : ℕ) (c : Cursor) (bs : List ℕ)
    → IsBacked c
    → (read_primitive n c).0 ≡ some bs
    → (length bs ≡ n) × All IsByte bs × Read c bs (read_primitive n c).1
unfolding read_primitive
read_primitive_sound n c bs backed h = elim (Bool-cases (ltb c.remaining n)) [
  | inl short ↦ absurd (ground arith)
  | inr fits ↦
      let same : take n c.bytes ≡ bs = ground arith in
      let enough = not-ltb→le c.remaining n fits in
      rw (fits, sym same)
        (
          omega (arith, length-take n c.bytes, backed.0),
          All-take n c.bytes backed.1,
          advance-Read n c enough backed,
        )
]

read_string_body-read_primitive : (n : ℕ) (c : Cursor) → read_string_body n c ≡ read_primitive n c
unfolding read_string_body read_primitive
read_string_body-read_primitive n c = refl

two_bytes :
    (raw : List ℕ)
    → length raw ≡ 2
    → All IsByte raw
    → (little_endian raw < 65536) × (raw ≡ little_endian raw % 256 ∷ little_endian raw / 256 ∷ [])
two_bytes [] e h = absurd (omega arith)
two_bytes (a ∷ []) e h = absurd (omega arith)
two_bytes (a ∷ b ∷ []) e h = ground arith
two_bytes (a ∷ b ∷ x ∷ raw) e h = absurd (omega arith)

Read-trans : (c d e : Cursor) (xs ys : List ℕ) → Read c xs d → Read d ys e → Read c (xs ++ ys) e
Read-trans c d e xs ys p q = (p.0 ∙ ap (◌++◌ xs) q.0 ∙ sym (append_assoc xs ys e.bytes), q.1)

read_string-read_primitive :
    (c : Cursor) (raw : List ℕ)
    → (read_primitive 2 c).0 ≡ some raw
    → read_string c ≡ read_primitive (little_endian raw) (read_primitive 2 c).1
unfolding read_string
read_string-read_primitive c raw e =
    rw (e, read_string) (read_string_body-read_primitive (little_endian raw) (read_primitive 2 c).1)

read_string_sound :
    (c : Cursor) (bs : List ℕ)
    → IsBacked c
    → (read_string c).0 ≡ some bs
    → (length bs < 65536) × Read c (encode (text bs)) (read_string c).1
unfolding read_string
read_string_sound c bs backed h = elim (Option-cases (read_primitive 2 c).0) [
  | inl e ↦ absurd (ground arith)
  | inr (raw, e) ↦
      let c1 = (read_primitive 2 c).1 in
      let n = little_endian raw in
      let (two, raw_bytes, first) = read_primitive_sound 2 c raw backed e in
      let (small, spelled) = two_bytes raw two raw_bytes in
      let step = read_string-read_primitive c raw e in
      let (long, bs_bytes, second) =
        read_primitive_sound n c1 bs first.1
          (ap (λ (r : Option (List ℕ) × Cursor). r.0) (sym step) ∙ h) in
      let both = Read-trans c c1 (read_primitive n c1).1 raw bs first second in
      let framed : raw ++ bs ≡ encode (text bs) =
        ap (λ x. x ++ bs) spelled ∙ ap (λ k. (k % 256 ∷ k / 256 ∷ bs)) (sym long) in
      (omega arith, rw step (subst (λ front. Read c front (read_primitive n c1).1) framed both))
]

abbrev Deserialized : ArgType → Cursor → Arg → Cursor → Type 0
Deserialized t c a c' = HasType t a × Read c (encode a) c'

deserialize_one_sound :
    (t : ArgType) (c : Cursor) (a : Arg)
    → IsBacked c
    → (deserialize_one t c).0 ≡ some a
    → Deserialized t c a (deserialize_one t c).1
unfolding deserialize_one
deserialize_one_sound string c a backed h = elim (Option-cases (read_string c).0) [
  | inl e ↦ absurd (ground arith)
  | inr (bs, e) ↦
      let same : text bs ≡ a = ground arith in rw (sym same) (read_string_sound c bs backed e)
]
deserialize_one_sound (primitive size) c a backed h =
    elim (Option-cases (read_primitive size c).0) [
      | inl e ↦ absurd (ground arith)
      | inr (bs, e) ↦
          let same : value bs ≡ a = ground arith in
          let k = read_primitive_sound size c bs backed e in rw (sym same) (k.0, k.2)
    ]

deserialize_impl_sound :
    (ts : List ArgType) (c : Cursor) (args : List Arg)
    → IsBacked c
    → (deserialize_impl ts c).0 ≡ some args
    → HaveTypes ts args × Read c (encode_all args) (deserialize_impl ts c).1
unfolding deserialize_impl
deserialize_impl_sound [] c args backed h =
    let same : [] ≡ args = ground arith in rw (sym same) (tt, (refl, backed))
deserialize_impl_sound (t ∷ []) c args backed h = elim (Option-cases (deserialize_one t c).0) [
  | inl e ↦ absurd (ground arith)
  | inr (a, e) ↦
      let same : a ∷ [] ≡ args = ground arith in
      let k = deserialize_one_sound t c a backed e in
      rw (sym same) (rw (append-nil (encode a)) ((k.0, tt), k.1))
]
deserialize_impl_sound (t ∷ u ∷ ts) c args backed h = elim (Option-cases (deserialize_one t c).0) [
  | inl e ↦ absurd (ground arith)
  | inr (a, e) ↦
      let c1 = (deserialize_one t c).1 in
      let k = deserialize_one_sound t c a backed e in
      elim (Option-cases (deserialize_impl (u ∷ ts) c1).0) [
        | inl e' ↦ absurd (ground arith)
        | inr (rest, e') ↦
            let same : a ∷ rest ≡ args = ground arith in
            let k' = deserialize_impl_sound (u ∷ ts) c1 rest k.1.1 e' in
            rw (sym same) (
              rw (e, deserialize_impl)
                (
                  (k.0, k'.0),
                  Read-trans c c1 (deserialize_impl (u ∷ ts) c1).1 (encode a) (encode_all rest) k.1
                      k'.1,
                ))
      ]
]

-- A packet that the deserializer accepts begins with the encoding of the arguments that it gives,
-- within the size of the packet, and these have the handler's types: it accepts no other bytes for
-- them. The memory behind the packet's start holds the packet.
pub deserialize_sound :
    (ts : List ArgType) (bytes : List ℕ) (use_size : ℕ) (args : List Arg)
    → use_size ≤ length bytes
    → All IsByte bytes
    → deserialize ts bytes use_size ≡ some args
    → HaveTypes ts args
      × (length (encode_all args) ≤ use_size)
      × ((rest : List ℕ) × (bytes ≡ encode_all args ++ rest))
unfolding deserialize
deserialize_sound ts bytes use_size args fits are_bytes h =
    let start : Cursor = record { bytes = bytes; remaining = use_size } in
    let k = deserialize_impl_sound ts start args (fits, are_bytes) h in
    let m = deserialize_impl-Moved ts start in
    let split =
      ap length k.1.0 ∙ length-append (encode_all args) (deserialize_impl ts start).1.bytes in
    let behind = ap (λ (c : Cursor). length c.bytes) m.lands ∙ length-drop m.by bytes in
    (k.0, omega (arith, split, behind, m.inside), (_, k.1.0))
