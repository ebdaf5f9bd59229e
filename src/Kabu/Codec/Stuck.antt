-- ===== src/Kabu/Codec/Stuck.antt =====
-- `KaBuCodec::onMessage` on a head that it refuses.
use cpp_game_frame.Prelude.{
  ℕ, zero, suc, ◌≤◌, ◌<◌, ◌≡◌, refl, ◌∙◌, ◌⊎◌, inl, inr, Bool, true, false, some, leb, ltb, ◌==◌,
  if◌then◌else◌, arith, length,
}
use cpp_game_frame.Prelude.Words.{word32}
use cpp_game_frame.Net.Buffer.{Buffer, contents, readable_bytes, peek_int32}
use cpp_game_frame.Net.Buffer.Inv.{IsValid}
use cpp_game_frame.Net.Buffer.Refine.{length-contents}
use cpp_game_frame.Net.Buffer.Words.{peek_int32-contents}
use cpp_game_frame.Kabu.Packet.{Packet}
use cpp_game_frame.Kabu.Codec.{
  again, running, packet_magic_c, max_message_len, get_low16, get_height16, on_header, round,
  on_message, default_error_callback,
}

-- A first word that the loop reports: the magic of the other direction, or a length over the limit.
abbrev pub IsRefused : ℕ → Type 0
IsRefused t = (get_low16 t ≡ packet_magic_c) ⊎ (max_message_len < get_height16 t)

module _ {ℓ} {S : Type ℓ} (message_callback : S → Packet → S) (connected : S → Bool)
    (shutdown : S → S) where
  round_refused :
      (s : S) (b : Buffer) (t : ℕ)
      → IsValid b
      → 12 ≤ length (contents b)
      → word32 (contents b) ≡ some t
      → IsRefused t
      → round message_callback (default_error_callback connected shutdown) s b
        ≡ again (if connected s then shutdown s else s) b
  unfolding round on_header default_error_callback
  round_refused s b t v h e r =
      let many : leb 12 (readable_bytes b) ≡ true = ground (arith, length-contents v) in
      let p : peek_int32 b ≡ some t = peek_int32-contents v (omega arith) ∙ e in
      rw (many, p) (split (tests r))
    where
      tests :
          IsRefused t
          → ((get_low16 t == packet_magic_c) ≡ true)
            ⊎ (((get_low16 t == packet_magic_c) ≡ false)
                × (ltb max_message_len (get_height16 t) ≡ true))
      tests r = ground arith

      split :
          ((get_low16 t == packet_magic_c) ≡ true)
            ⊎ (((get_low16 t == packet_magic_c) ≡ false)
                × (ltb max_message_len (get_height16 t) ≡ true))
          → on_header message_callback
              (default_error_callback connected shutdown)
              s
              b
              (get_low16 t)
              (get_height16 t)
            ≡ again (if connected s then shutdown s else s) b
      split (inl magic) = rw (magic, on_header)
      split (inr (other, long)) = rw (other, on_header) (rw long refl)

  -- If the first word of a valid buffer of at least 12 readable bytes has the magic of the other
  -- direction or a length above 64512, then with the default error callback onMessage does not
  -- return: with any number of rounds allowed it is still running.
  pub on_message_refused :
      (fuel : ℕ) (s : S) (b : Buffer) (t : ℕ)
      → IsValid b
      → 12 ≤ length (contents b)
      → word32 (contents b) ≡ some t
      → IsRefused t
      → on_message message_callback (default_error_callback connected shutdown) fuel s b ≡ running
  unfolding on_message
  on_message_refused zero s b t v h e r = refl
  on_message_refused (suc fuel) s b t v h e r =
      rw (round_refused s b t v h e r, on_message) (on_message_refused fuel _ b t v h e r)
