-- ===== src/Cpu/Gdt.antt =====
-- src/kernel/cpu/gdt.c and gdt.h: the segments.
use legendary_journey.Base.{ℕ, ◌+◌, ◌*◌, ◌^◌, List, [], ◌∷◌}

-- `struct gdtentry`
pub record GdtEntry : Type 0 where
  pub limit_low : ℕ
  pub base_low : ℕ
  pub accessed : ℕ
  pub read_write : ℕ
  pub conforming_expand_down : ℕ
  pub code : ℕ
  pub code_data_segment : ℕ
  pub dpl : ℕ
  pub present : ℕ
  pub limit_high : ℕ
  pub available : ℕ
  pub long_mode : ℕ
  pub big : ℕ
  pub gran : ℕ
  pub base_high : ℕ

-- the bit fields of an entry in their order, the first one lowest: the 8 bytes that the processor reads
unfoldable pub descriptor : GdtEntry → ℕ
descriptor e =
    e.limit_low
    + e.base_low * 2 ^ 16
    + e.accessed * 2 ^ 40
    + e.read_write * 2 ^ 41
    + e.conforming_expand_down * 2 ^ 42
    + e.code * 2 ^ 43
    + e.code_data_segment * 2 ^ 44
    + e.dpl * 2 ^ 45
    + e.present * 2 ^ 47
    + e.limit_high * 2 ^ 48
    + e.available * 2 ^ 52
    + e.long_mode * 2 ^ 53
    + e.big * 2 ^ 54
    + e.gran * 2 ^ 55
    + e.base_high * 2 ^ 56

abbrev pub null_segment : GdtEntry
null_segment = record {
  limit_low = 0;
  base_low = 0;
  accessed = 0;
  read_write = 0;
  conforming_expand_down = 0;
  code = 0;
  code_data_segment = 0;
  dpl = 0;
  present = 0;
  limit_high = 0;
  available = 0;
  long_mode = 0;
  big = 0;
  gran = 0;
  base_high = 0;
}

abbrev pub code_segment : GdtEntry
code_segment = record {
  limit_low = 0xFFFF;
  base_low = 0;
  accessed = 0;
  read_write = 1;
  conforming_expand_down = 0;
  code = 1;
  code_data_segment = 1;
  dpl = 0;
  present = 1;
  limit_high = 0xF;
  available = 0;
  long_mode = 0;
  big = 1;
  gran = 1;
  base_high = 0;
}

abbrev pub data_segment : GdtEntry
data_segment = record {
  limit_low = 0xFFFF;
  base_low = 0;
  accessed = 0;
  read_write = 1;
  conforming_expand_down = 0;
  code = 0;
  code_data_segment = 1;
  dpl = 0;
  present = 1;
  limit_high = 0xF;
  available = 0;
  long_mode = 0;
  big = 1;
  gran = 1;
  base_high = 0;
}

abbrev pub user_code_segment : GdtEntry
user_code_segment = record {
  limit_low = 0xFFFF;
  base_low = 0;
  accessed = 0;
  read_write = 1;
  conforming_expand_down = 0;
  code = 1;
  code_data_segment = 1;
  dpl = 3;
  present = 1;
  limit_high = 0xF;
  available = 1;
  long_mode = 0;
  big = 1;
  gran = 1;
  base_high = 0;
}

abbrev pub user_data_segment : GdtEntry
user_data_segment = record {
  limit_low = 0xFFFF;
  base_low = 0;
  accessed = 0;
  read_write = 1;
  conforming_expand_down = 0;
  code = 0;
  code_data_segment = 1;
  dpl = 3;
  present = 1;
  limit_high = 0xF;
  available = 1;
  long_mode = 0;
  big = 1;
  gran = 1;
  base_high = 0;
}

-- the table that `gdtinit` loads; the last entry is that of the task state segment, which is not set
abbrev pub gdt : List GdtEntry
gdt =
    null_segment ∷ code_segment ∷ data_segment ∷ user_code_segment ∷ user_data_segment
    ∷ null_segment ∷ []
