-- ===== src/Checksum.antt =====
-- The Internet checksum of assignment-3/router/sr_utils.c.
pub mod Laws
use cmput.Base.{
  ℕ, zero, suc, ◌+◌, ◌-◌, ◌*◌, ◌/◌, ◌%◌, ◌^◌, List, [], ◌∷◌, Bytes, htons, ltb, ◌==◌, if◌then◌else◌,
}

-- The first loop, over the bytes that `len` counts: `data[0] << 8 | data[1]` is added to a
-- `uint32_t`. A last single byte is the high half of a word.
unfoldable pub sum_words : ℕ → Bytes → ℕ
sum_words sum [] = sum
sum_words sum (a ∷ []) = (sum + a * 256) % 2 ^ 32
sum_words sum (a ∷ b ∷ rest) = sum_words ((sum + (a * 256 + b)) % 2 ^ 32) rest

-- `while (sum > 0xffff) sum = (sum >> 16) + (sum & 0xffff)`, at most `fuel` rounds.
unfoldable pub fold_carries : ℕ → ℕ → ℕ
fold_carries zero sum = sum
fold_carries (suc fuel) sum =
    let rest = fold_carries fuel (sum / 2 ^ 16 + sum % 2 ^ 16) in
    if ltb 0xffff sum then rest else sum

-- From a `uint32_t` two rounds reach 16 bits (`Laws.fold_carries_done`); a third is never taken.
abbrev pub fold_fuel : ℕ
fold_fuel = 3

-- `sum = htons(~sum); return sum ? sum : 0xffff;`
unfoldable pub finish : ℕ → ℕ
unfolding htons
finish sum = let s = htons (2 ^ 32 - 1 - sum) in if s == 0 then 0xffff else s

-- `cksum(data, len)`, where `data` is the list of the `len` bytes.
unfoldable pub cksum : Bytes → ℕ
unfolding sum_words fold_carries finish
cksum d = finish (fold_carries fold_fuel (sum_words 0 d))
