-- ===== src/Router/Address.antt =====
-- The two MAC addresses that are put into a frame before it is sent.
use cmput.Base.{
  ℕ, ◌≤◌, ◌≡◌, Bytes, slice, splice, length, length-splice, slice-splice, slice-splice_before,
  slice-splice_after, ◌∙◌, arith,
}
use cmput.Packet.{stores}
use cmput.Router.Frames.{address_frame}

module _ (b mac addr : Bytes) (m : length mac ≡ 6) (a : length addr ≡ 6) where
  pub length-address_frame : length (address_frame b mac addr) ≡ length b
  unfolding stores
  length-address_frame = length-splice (splice b 0 mac) 6 addr ∙ length-splice b 0 mac

  pub slice-address_frame_behind :
      (o n : ℕ) → 12 ≤ o → slice (address_frame b mac addr) o n ≡ slice b o n
  unfolding stores
  slice-address_frame_behind o n h =
      slice-splice_after (splice b 0 mac) 6 addr o n (omega arith)
      ∙ slice-splice_after b 0 mac o n (omega arith)

  pub slice-address_frame_dhost : 12 ≤ length b → slice (address_frame b mac addr) 0 6 ≡ mac
  unfolding stores
  slice-address_frame_dhost h =
      slice-splice_before (splice b 0 mac) 6 addr 0 6 (omega arith)
      ∙ slice-splice b 0 mac 6 (omega arith) (omega arith)

  pub slice-address_frame_shost : 12 ≤ length b → slice (address_frame b mac addr) 6 6 ≡ addr
  unfolding stores
  slice-address_frame_shost h =
      slice-splice (splice b 0 mac) 6 addr 6 (omega arith) (omega (arith, length-splice b 0 mac))
