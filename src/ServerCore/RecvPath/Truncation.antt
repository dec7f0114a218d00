-- ===== src/ServerCore/RecvPath/Truncation.antt =====
-- What the server does with the beginning of a packet, beside what the client does with it.
use actor_model_server.Base.{
  ℕ, ◌+◌, ◌-◌, ◌≤◌, ◌<◌, ◌≡◌, refl, sym, ap, ◌∙◌, true, some, inr, List, [], ◌++◌, take, drop,
  length, arith, length-append, le→not-ltb, take_exact, drop_exact, take_beyond, drop_beyond,
  lt→ltb,
}
use actor_model_server.NetLib.{RingOps, RingLaws, PacketFormat}
use actor_model_server.SimpleClient.{ended, packet_round, payload_length_of}
use actor_model_server.SimpleClient.Receiving.{packet_round-Incomplete}
use actor_model_server.ServerCore.RecvPath.{recv_stream_to_buffer, decode_streamed}

module _ (ops : RingOps) (laws : RingLaws ops) (format : PacketFormat) where
  open ops use {Ring, remove_data, dequeue}
  open laws use {contents}
  open format use {header_size, default_size, decode}

  -- The ring holds a header and only a part of the payload, which would fit a buffer, and `Decode`
  -- would take the part for a packet. The client waits for the rest, with the ring as it is. The
  -- server takes the part out of the ring and decodes it as the whole payload.
  pub recv_stream_to_buffer_takes_part :
      (ring : Ring) (header part packet : List ℕ) (size : ℕ)
      → contents ring ≡ header ++ part
      → length header ≡ header_size
      → size ≡ length (header ++ part)
      → header_size < size
      → length part < payload_length_of header
      → payload_length_of header ≤ default_size
      → decode header part ≡ some packet
      → (packet_round ops format size ring ≡ ended true ring)
        × (recv_stream_to_buffer ops format size ring ≡ record {
          packet = some packet;
          ring = (dequeue (payload_length_of header) (remove_data header_size ring)).1;
          rest_size = 0;
        })
        × (contents (dequeue (payload_length_of header) (remove_data header_size ring)).1 ≡ [])
  unfolding recv_stream_to_buffer decode_streamed
  recv_stream_to_buffer_takes_part ring header part packet size e h n longer short fits d =
      let sizes = length-append header part in
      let seen_header : take header_size (contents ring) ≡ header =
        ap (take header_size) e ∙ take_exact header part header_size (sym h) in
      let whole : (dequeue (payload_length_of header) (remove_data header_size ring)).0 ≡ part =
        laws.dequeue-taken _ _
        ∙ ap (take (payload_length_of header)) behind
        ∙ take_beyond (payload_length_of header) part (omega arith) in
      let rest : size - (length part + header_size) ≡ 0 = omega (arith, sizes) in
      (
        packet_round-Incomplete ops laws format ring size (n ∙ ap length (sym e))
            (inr (rw seen_header (fits, rw e (omega (arith, sizes))))),
        rw
            (
              seen,
              lt→ltb size (payload_length_of header + header_size) (omega (arith, sizes)),
              le→not-ltb default_size (payload_length_of header) fits,
              whole,
            )
            (rw (d, decode_streamed) (rw rest refl)),
        laws.dequeue-left _ _
            ∙ ap (drop (payload_length_of header)) behind
            ∙ drop_beyond (payload_length_of header) part (omega arith),
      )
    where
      seen : ops.peek header_size ring ≡ header
      seen =
          laws.peek-contents header_size ring
          ∙ ap (take header_size) e
          ∙ take_exact header part header_size (sym h)

      behind : contents (remove_data header_size ring) ≡ part
      behind =
          laws.contents-remove_data header_size ring
          ∙ ap (drop header_size) e
          ∙ drop_exact header part header_size (sym h)
