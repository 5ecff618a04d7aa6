-- ===== src/Crc32/Tests.antt =====
-- Shared/Message/Message.cpp: the CRC at concrete bytes.
use helianthus.Prelude.{ℕ, ◌≡◌, refl, List, [], ◌∷◌}
use helianthus.Crc32.{all_ones, crc_loop, calculate_crc32}
use helianthus.Crc32.Reference.{bitwise_crc, crc_loop-bitwise_crc}

-- "123456789".
abbrev digits_1_to_9 : List ℕ
digits_1_to_9 = 49 ∷ 50 ∷ 51 ∷ 52 ∷ 53 ∷ 54 ∷ 55 ∷ 56 ∷ 57 ∷ []

check_value : calculate_crc32 digits_1_to_9 ≡ 0xCBF43926
unfolding calculate_crc32
check_value = refl

crc_loop-bitwise_crc_example : crc_loop all_ones digits_1_to_9 ≡ bitwise_crc all_ones digits_1_to_9
crc_loop-bitwise_crc_example = crc_loop-bitwise_crc all_ones digits_1_to_9
