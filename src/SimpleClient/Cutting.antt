-- ===== src/SimpleClient/Cutting.antt =====
-- A stream of packets, cut anywhere: whole packets, and the beginning of the next.
use actor_model_server.Base.{
  ℕ, ◌≤◌, ◌<◌, ◌≡◌, refl, sym, ap, ◌∙◌, inl, inr, List, [], ◌∷◌, ◌++◌, take, drop, length, arith,
  All, append_assoc, take_exact, drop_exact, take-append, drop-append, take-append-drop, dec_lt,
}
use actor_model_server.NetLib.{PacketFormat}
use actor_model_server.SimpleClient.Receiving.{
  Frame, IsFrame, Incomplete, frame_bytes, stream, packets, length-frame_bytes,
}

-- Bytes that no whole packet of the list is in.
abbrev pub IsPartial : List ℕ → List Frame → Type 0
IsPartial bs [] = bs ≡ []
IsPartial bs (f ∷ fs) = length bs < length (frame_bytes f)

-- A cut of a stream falls behind some whole packets, inside the next.
pub record Cut (fs : List Frame) (xs ys : List ℕ) : Type 0 where
  pub before : List Frame
  pub after : List Frame
  pub part : List ℕ
  pub whole : fs ≡ before ++ after
  pub front : xs ≡ stream before ++ part
  pub back : part ++ ys ≡ stream after
  pub partial : IsPartial part after

append-eq-nil : (xs ys : List ℕ) → xs ++ ys ≡ [] → xs ≡ []
append-eq-nil [] ys e = refl
append-eq-nil (x ∷ xs) ys e = cc

pub cut : (fs : List Frame) (xs ys : List ℕ) → xs ++ ys ≡ stream fs → Cut fs xs ys
cut [] xs ys e = record {
  before = [];
  after = [];
  part = xs;
  whole = refl;
  front = refl;
  back = e;
  partial = append-eq-nil xs ys e;
}
cut (f ∷ fs) xs ys e = elim (dec_lt (length xs) (length (frame_bytes f))) [
  | yes inside ↦ record {
    before = [];
    after = f ∷ fs;
    part = xs;
    whole = refl;
    front = refl;
    back = e;
    partial = inside;
  }
  | no past ↦
      let n = length (frame_bytes f) in
      let fits : n ≤ length xs = omega arith in
      let same : take n xs ≡ frame_bytes f =
        sym (take-append n xs ys fits)
        ∙ ap (take n) e
        ∙ take_exact (frame_bytes f) (stream fs) n refl in
      let rest : drop n xs ++ ys ≡ stream fs =
        sym (drop-append n xs ys fits)
        ∙ ap (drop n) e
        ∙ drop_exact (frame_bytes f) (stream fs) n refl in
      let c = cut fs (drop n xs) ys rest in
      record {
        before = f ∷ c.before;
        after = c.after;
        part = c.part;
        whole = ap (◌∷◌ f) c.whole;
        front =
            sym (take-append-drop n xs)
            ∙ (λ i. same i ++ c.front i)
            ∙ sym (append_assoc (frame_bytes f) (stream c.before) c.part);
        back = c.back;
        partial = c.partial;
      }
]

pub stream-append : (fs gs : List Frame) → stream (fs ++ gs) ≡ stream fs ++ stream gs
stream-append [] gs = refl
stream-append (f ∷ fs) gs =
    ap (◌++◌ (frame_bytes f)) (stream-append fs gs)
    ∙ sym (append_assoc (frame_bytes f) (stream fs) (stream gs))

pub packets-append : (fs gs : List Frame) → packets (fs ++ gs) ≡ packets fs ++ packets gs
packets-append [] gs = refl
packets-append (f ∷ fs) gs = ap (◌∷◌ f.packet) (packets-append fs gs)

pub All-append_split :
    (P : Frame → Type 0) (fs gs : List Frame) → All P (fs ++ gs) → All P fs × All P gs
All-append_split P [] gs h = (tt, h)
All-append_split P (f ∷ fs) gs h =
    let (front, back) = All-append_split P fs gs h.1 in ((h.0, front), back)

abbrev pub concat : List (List ℕ) → List ℕ
concat [] = []
concat (xs ∷ xss) = xs ++ concat xss

module _ (format : PacketFormat) where
  open format use {header_size, default_size}

  pub IsPartial-Incomplete :
      (fs : List Frame) (bs ys : List ℕ)
      → All (IsFrame format) fs
      → IsPartial bs fs
      → bs ++ ys ≡ stream fs
      → Incomplete format bs
  IsPartial-Incomplete [] bs ys h none_left e = inl (omega (arith, ap length none_left))
  IsPartial-Incomplete (f ∷ fs) bs ys h short e = elim (dec_lt header_size (length bs)) [
    | no few ↦ inl (omega arith)
    | yes headed ↦
        inr (
          rw (header headed, h.0.stated) (h.0.fits, omega (arith, length-frame_bytes format f h.0)))
  ]
    where
      header : header_size < length bs → take header_size bs ≡ f.header
      header headed =
          sym (take-append header_size bs ys (omega arith))
          ∙ ap (take header_size) (e ∙ append_assoc f.header f.payload (stream fs))
          ∙ take_exact f.header (f.payload ++ stream fs) header_size (sym h.0.header_length)
