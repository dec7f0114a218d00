-- ===== src/Deserializer/Bounds.antt =====
-- No read of the deserializer goes past the end of the packet.
use actor_model_server.Base.{
  ℕ, ◌+◌, ◌≤◌, ◌≡◌, refl, false, List, [], ◌∷◌, ltb, arith, Bool-cases, Option-cases, inl, inr,
  drop-drop, not-ltb→le, ap, ◌∙◌,
}
use actor_model_server.Deserializer.{
  Cursor, ArgType, string, primitive, advance, little_endian, read_primitive, read_string_body,
  read_string, deserialize_one, deserialize_impl,
}

-- `c'` is `c` moved on by `n` bytes, all of them inside the packet.
pub record Moved (c c' : Cursor) : Type 0 where
  pub by : ℕ
  pub inside : by ≤ c.remaining
  pub lands : c' ≡ advance by c

stay : (c : Cursor) → Moved c c
stay c = record { by = 0; inside = omega arith; lands = ground arith }

advance-advance : (m n : ℕ) (c : Cursor) → advance n (advance m c) ≡ advance (m + n) c
advance-advance m n c = ground (arith, drop-drop m n c.bytes)

Moved-trans : {c d e : Cursor} → Moved c d → Moved d e → Moved c e
Moved-trans {c} p q = record {
  by = p.by + q.by;
  inside = ground (arith, p.lands, q.inside, p.inside);
  lands = q.lands ∙ ap (advance q.by) p.lands ∙ advance-advance p.by q.by c;
}

forward : (n : ℕ) (c : Cursor) → ltb c.remaining n ≡ false → Moved c (advance n c)
forward n c h = record { by = n; inside = not-ltb→le _ _ h; lands = refl }

read_primitive-Moved : (size : ℕ) (c : Cursor) → Moved c (read_primitive size c).1
unfolding read_primitive
read_primitive-Moved size c = elim (Bool-cases (ltb c.remaining size)) [
  | inl short ↦ rw short (stay c)
  | inr fits ↦ rw fits (forward size c fits)
]

read_string_body-Moved : (n : ℕ) (c : Cursor) → Moved c (read_string_body n c).1
unfolding read_string_body
read_string_body-Moved n c = elim (Bool-cases (ltb c.remaining n)) [
  | inl short ↦ rw short (stay c)
  | inr fits ↦ rw fits (forward n c fits)
]

read_string-Moved : (c : Cursor) → Moved c (read_string c).1
unfolding read_string
read_string-Moved c = elim (Option-cases (read_primitive 2 c).0) [
  | inl e ↦ rw (e, read_string) (read_primitive-Moved 2 c)
  | inr (raw, e) ↦
      rw (e, read_string)
        (Moved-trans (read_primitive-Moved 2 c)
          (read_string_body-Moved (little_endian raw) (read_primitive 2 c).1))
]

deserialize_one-Moved : (t : ArgType) (c : Cursor) → Moved c (deserialize_one t c).1
unfolding deserialize_one
deserialize_one-Moved string c = read_string-Moved c
deserialize_one-Moved (primitive size) c = read_primitive-Moved size c

-- Whatever the types and the bytes, failing or not, the deserializer moves its cursor forward by
-- a number of bytes that the packet still holds.
pub deserialize_impl-Moved :
    (types : List ArgType) (c : Cursor) → Moved c (deserialize_impl types c).1
unfolding deserialize_impl
deserialize_impl-Moved [] c = stay c
deserialize_impl-Moved (t ∷ []) c = deserialize_one-Moved t c
deserialize_impl-Moved (t ∷ u ∷ ts) c = elim (Option-cases (deserialize_one t c).0) [
  | inl e ↦ rw (e, deserialize_impl) (deserialize_one-Moved t c)
  | inr (a, e) ↦
      rw (e, deserialize_impl)
        (Moved-trans (deserialize_one-Moved t c)
          (deserialize_impl-Moved (u ∷ ts) (deserialize_one t c).1))
]
