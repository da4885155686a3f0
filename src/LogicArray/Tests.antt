-- ===== src/LogicArray/Tests.antt =====
-- Runs of rustdv/rustdv-gpi/src/value.rs.
use rustdv.Base.{ℕ, ◌≡◌, refl, List, [], ◌∷◌}
use rustdv.LogicArray.Bits
use rustdv.LogicArray.Bits.{big}
use rustdv.LogicArray.Codec
use rustdv.LogicArray.Codec.{
  LogicArray, from_binstr, to_binstr, is_resolvable, from_u128, try_u8, try_u16, try_u32, try_u64,
  try_u128, from_vpi_words, to_vpi_words, word_count,
}

abbrev text : List ℕ
text = b'1' ∷ b'0' ∷ b'Z' ∷ b'?' ∷ []

printed : to_binstr big (from_binstr big text) ≡ b'1' ∷ b'0' ∷ b'z' ∷ b'x' ∷ []
unfolding to_binstr from_binstr Codec.push_char Codec.to_char big Bits.set_bit
printed = refl
