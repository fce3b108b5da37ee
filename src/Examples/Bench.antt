-- ===== src/Examples/Bench.antt =====
-- The benchmarks at concrete inputs.
use systemish.Base.{ℕ, ◌+◌, ◌*◌, ◌/◌, ◌%◌, ◌≡◌, arith}
use systemish.Bench.Buffers.{fastcrc, crc_of, fastcrc-crc_of, WordIsBytes}

abbrev data_at : ℕ → ℕ
data_at i = i

abbrev ind : ℕ → ℕ
ind i = i * 77 % 1000

-- A checksum that obeys the law of the instruction: the sum of the bytes.
abbrev add_byte : ℕ → ℕ → ℕ
add_byte crc b = crc + b

abbrev add_word : ℕ → ℕ → ℕ
add_word crc w = crc + w % 256 + w / 256 % 256 + w / 65536 % 256 + w / 16777216

add_word-WordIsBytes : WordIsBytes add_word add_byte
add_word-WordIsBytes crc b0 b1 b2 b3 h0 h1 h2 h3 = omega arith

abbrev text : ℕ → ℕ
text k = k * 11 % 256

fastcrc-crc_of_example : fastcrc add_word add_byte text 11 ≡ crc_of add_word add_byte text 11
fastcrc-crc_of_example =
    fastcrc-crc_of add_word add_byte text (λ k. omega arith) add_word-WordIsBytes 11
