-- ===== src/Kbd/Table.antt =====
-- `keyboard_us` of src/kernel/drivers/kbd.c: the character of each scancode, without and with
-- shift. The elements that the initialisers leave out are 0.
use legendary_journey.Base.{ℕ, Bool, true, false, List, [], ◌∷◌}

abbrev pub plain : List ℕ
plain =
    0 ∷ 27 ∷ 49 ∷ 50 ∷ 51 ∷ 52 ∷ 53 ∷ 54 ∷ 55 ∷ 56 ∷ 57 ∷ 48 ∷ 45 ∷ 61 ∷ 8 ∷ 9 ∷ 113 ∷ 119 ∷ 101
    ∷ 114 ∷ 116 ∷ 121 ∷ 117 ∷ 105 ∷ 111 ∷ 112 ∷ 91 ∷ 93 ∷ 10 ∷ 0 ∷ 97 ∷ 115 ∷ 100 ∷ 102 ∷ 103 ∷ 104
    ∷ 106 ∷ 107 ∷ 108 ∷ 59 ∷ 39 ∷ 96 ∷ 0 ∷ 92 ∷ 122 ∷ 120 ∷ 99 ∷ 118 ∷ 98 ∷ 110 ∷ 109 ∷ 44 ∷ 46 ∷ 47
    ∷ 0 ∷ 0 ∷ 0 ∷ 32 ∷ 0 ∷ 128 ∷ 129 ∷ 130 ∷ 131 ∷ 132 ∷ 133 ∷ 134 ∷ 135 ∷ 136 ∷ 137 ∷ 0 ∷ 0 ∷ 146
    ∷ 200 ∷ 148 ∷ 45 ∷ 203 ∷ 53 ∷ 205 ∷ 43 ∷ 147 ∷ 208 ∷ 149 ∷ 144 ∷ 145 ∷ 0 ∷ 0 ∷ 0 ∷ 138 ∷ 139
    ∷ []

abbrev pub shifted : List ℕ
shifted =
    0 ∷ 27 ∷ 33 ∷ 64 ∷ 35 ∷ 36 ∷ 37 ∷ 94 ∷ 38 ∷ 42 ∷ 40 ∷ 41 ∷ 95 ∷ 43 ∷ 8 ∷ 9 ∷ 81 ∷ 87 ∷ 69 ∷ 82
    ∷ 84 ∷ 89 ∷ 85 ∷ 73 ∷ 79 ∷ 80 ∷ 123 ∷ 125 ∷ 10 ∷ 0 ∷ 65 ∷ 83 ∷ 68 ∷ 70 ∷ 71 ∷ 72 ∷ 74 ∷ 75 ∷ 76
    ∷ 58 ∷ 34 ∷ 126 ∷ 0 ∷ 124 ∷ 90 ∷ 88 ∷ 67 ∷ 86 ∷ 66 ∷ 78 ∷ 77 ∷ 60 ∷ 62 ∷ 63 ∷ 0 ∷ 0 ∷ 0 ∷ 32 ∷ 0
    ∷ 128 ∷ 129 ∷ 130 ∷ 131 ∷ 132 ∷ 133 ∷ 134 ∷ 135 ∷ 136 ∷ 137 ∷ 0 ∷ 0 ∷ 146 ∷ 200 ∷ 148 ∷ 45 ∷ 203
    ∷ 53 ∷ 205 ∷ 43 ∷ 147 ∷ 208 ∷ 149 ∷ 144 ∷ 145 ∷ 0 ∷ 0 ∷ 0 ∷ 138 ∷ 139 ∷ []

abbrev pub keyboard_us : Bool → List ℕ
keyboard_us false = plain
keyboard_us true = shifted
