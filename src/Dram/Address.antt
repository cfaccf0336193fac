-- ===== src/Dram/Address.antt =====
-- The DRAM fields of an address tell addresses apart.
use sandbox_predictor.Prelude.{ℕ, ◌+◌, ◌*◌, ◌/◌, ◌%◌, ◌^◌, ◌<◌, ◌≡◌, refl, arith}
use Prim.Native.Nat.{bit_and}
use sandbox_predictor.Prelude.Bits.{bit_and-ones}
use sandbox_predictor.Prelude.Word.{u32}
use sandbox_predictor.Dram.{
  dram_get_channel, dram_get_rank, dram_get_bank, dram_get_column, dram_get_row,
}

-- Channel, rank, bank, column and row of a block address below 2 ^ 26 make up that address, and each
-- is in the bounds of its array.
pub dram_fields :
    (address : ℕ)
    → address < 2 ^ 26
    → ((dram_get_row address * 128 + dram_get_column address) * 8 + dram_get_bank address ≡ address)
      × (dram_get_channel address ≡ 0)
      × (dram_get_rank address ≡ 0)
      × (dram_get_bank address < 8)
      × (dram_get_column address < 128)
      × (dram_get_row address < 65536)
unfolding dram_get_channel dram_get_rank dram_get_bank dram_get_column dram_get_row
dram_fields a l =
    let bank : bit_and (u32 (a / 1)) 7 ≡ u32 (a / 1) % 8 = bit_and-ones 3 (u32 (a / 1)) in
    let column : bit_and (u32 (a / 8)) 127 ≡ u32 (a / 8) % 128 = bit_and-ones 7 (u32 (a / 8)) in
    let row : bit_and (u32 (a / 1024)) 65535 ≡ u32 (a / 1024) % 65536 =
      bit_and-ones 16 (u32 (a / 1024)) in
    (omega arith, refl, refl, omega arith, omega arith, omega arith)
