-- ===== src/Datetime/Ascii.antt =====
-- The characters of the texts that src/engine/base/datetime.c reads and writes, in ASCII.
use ats.Base.{ℕ, ◌+◌, ◌%◌, Bool, ◌||◌, ◌==◌}

abbrev pub dash : ℕ
dash = 45

abbrev pub colon : ℕ
colon = 58

abbrev pub dot : ℕ
dot = 46

abbrev pub plus : ℕ
plus = 43

abbrev pub space : ℕ
space = 32

abbrev pub letter_t : ℕ
letter_t = 84

abbrev pub small_t : ℕ
small_t = 116

abbrev pub letter_z : ℕ
letter_z = 90

abbrev pub small_z : ℕ
small_z = 122

-- `'0' + n`
abbrev pub digit : ℕ → ℕ
digit n = 48 + n

-- `*cur - '0'` as an `unsigned char`
abbrev pub digit_of : ℕ → ℕ
digit_of c = (c + 208) % 256

abbrev pub is_t : ℕ → Bool
is_t c = c == letter_t || c == space || c == small_t

abbrev pub is_z : ℕ → Bool
is_z c = c == letter_z || c == small_z
