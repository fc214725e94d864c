-- ===== src/Keyboard/Keymap.antt =====
-- src/include/keymap.h: three columns for every scan code: plain, with Shift, and after 0xE0.
use aneasyos.Base.{ℕ, List, [], ◌∷◌}

abbrev pub keymap : List ℕ
keymap =
    0 ∷ 0 ∷ 0 ∷ 0x101 ∷ 0x101 ∷ 0 ∷ 49 ∷ 33 ∷ 0 ∷ 50 ∷ 64 ∷ 0 ∷ 51 ∷ 35 ∷ 0 ∷ 52 ∷ 36 ∷ 0 ∷ 53 ∷ 37
    ∷ 0 ∷ 54 ∷ 94 ∷ 0 ∷ 55 ∷ 38 ∷ 0 ∷ 56 ∷ 42 ∷ 0 ∷ 57 ∷ 40 ∷ 0 ∷ 48 ∷ 41 ∷ 0 ∷ 45 ∷ 95 ∷ 0 ∷ 61
    ∷ 43 ∷ 0 ∷ 0x104 ∷ 0x104 ∷ 0 ∷ 0x102 ∷ 0x102 ∷ 0 ∷ 113 ∷ 81 ∷ 0 ∷ 119 ∷ 87 ∷ 0 ∷ 101 ∷ 69 ∷ 0
    ∷ 114 ∷ 82 ∷ 0 ∷ 116 ∷ 84 ∷ 0 ∷ 121 ∷ 89 ∷ 0 ∷ 117 ∷ 85 ∷ 0 ∷ 105 ∷ 73 ∷ 0 ∷ 111 ∷ 79 ∷ 0 ∷ 112
    ∷ 80 ∷ 0 ∷ 91 ∷ 123 ∷ 0 ∷ 93 ∷ 125 ∷ 0 ∷ 0x103 ∷ 0x103 ∷ 0x130 ∷ 0x10a ∷ 0x10a ∷ 0x10b ∷ 97 ∷ 65
    ∷ 0 ∷ 115 ∷ 83 ∷ 0 ∷ 100 ∷ 68 ∷ 0 ∷ 102 ∷ 70 ∷ 0 ∷ 103 ∷ 71 ∷ 0 ∷ 104 ∷ 72 ∷ 0 ∷ 106 ∷ 74 ∷ 0
    ∷ 107 ∷ 75 ∷ 0 ∷ 108 ∷ 76 ∷ 0 ∷ 59 ∷ 58 ∷ 0 ∷ 39 ∷ 34 ∷ 0 ∷ 96 ∷ 126 ∷ 0 ∷ 0x108 ∷ 0x108 ∷ 0
    ∷ 92 ∷ 124 ∷ 0 ∷ 122 ∷ 90 ∷ 0 ∷ 120 ∷ 88 ∷ 0 ∷ 99 ∷ 67 ∷ 0 ∷ 118 ∷ 86 ∷ 0 ∷ 98 ∷ 66 ∷ 0 ∷ 110
    ∷ 78 ∷ 0 ∷ 109 ∷ 77 ∷ 0 ∷ 44 ∷ 60 ∷ 0 ∷ 46 ∷ 62 ∷ 0 ∷ 47 ∷ 63 ∷ 0x12c ∷ 0x109 ∷ 0x109 ∷ 0 ∷ 42
    ∷ 42 ∷ 0 ∷ 0x10c ∷ 0x10c ∷ 0x10d ∷ 32 ∷ 32 ∷ 0 ∷ 0x10e ∷ 0x10e ∷ 0 ∷ 0x111 ∷ 0x111 ∷ 0 ∷ 0x112
    ∷ 0x112 ∷ 0 ∷ 0x113 ∷ 0x113 ∷ 0 ∷ 0x114 ∷ 0x114 ∷ 0 ∷ 0x115 ∷ 0x115 ∷ 0 ∷ 0x116 ∷ 0x116 ∷ 0
    ∷ 0x117 ∷ 0x117 ∷ 0 ∷ 0x118 ∷ 0x118 ∷ 0 ∷ 0x119 ∷ 0x119 ∷ 0 ∷ 0x11a ∷ 0x11a ∷ 0 ∷ 0x10f ∷ 0x10f
    ∷ 0 ∷ 0x110 ∷ 0x110 ∷ 0 ∷ 0x139 ∷ 55 ∷ 0x121 ∷ 0x13a ∷ 56 ∷ 0x125 ∷ 0x13b ∷ 57 ∷ 0x123 ∷ 0x12e
    ∷ 45 ∷ 0 ∷ 0x136 ∷ 52 ∷ 0x127 ∷ 0x137 ∷ 53 ∷ 0 ∷ 0x138 ∷ 54 ∷ 0x128 ∷ 0x12f ∷ 43 ∷ 0 ∷ 0x133
    ∷ 49 ∷ 0x122 ∷ 0x134 ∷ 50 ∷ 0x126 ∷ 0x135 ∷ 51 ∷ 0x124 ∷ 0x132 ∷ 48 ∷ 0x11f ∷ 0x131 ∷ 46 ∷ 0x120
    ∷ 0 ∷ 0 ∷ 0 ∷ 0 ∷ 0 ∷ 0 ∷ 0 ∷ 0 ∷ 0 ∷ 0x11b ∷ 0x11b ∷ 0 ∷ 0x11c ∷ 0x11c ∷ 0 ∷ 0 ∷ 0 ∷ 0 ∷ 0 ∷ 0
    ∷ 0 ∷ 0 ∷ 0 ∷ 0x105 ∷ 0 ∷ 0 ∷ 0x106 ∷ 0 ∷ 0 ∷ 0x107 ∷ 0 ∷ 0 ∷ 0 ∷ 0 ∷ 0 ∷ 0 ∷ 0 ∷ 0 ∷ 0 ∷ 0 ∷ 0
    ∷ 0 ∷ 0 ∷ 0 ∷ 0 ∷ 0 ∷ 0 ∷ 0 ∷ 0 ∷ 0 ∷ 0 ∷ 0 ∷ 0 ∷ 0 ∷ 0 ∷ 0 ∷ 0 ∷ 0 ∷ 0 ∷ 0 ∷ 0 ∷ 0 ∷ 0 ∷ 0 ∷ 0
    ∷ 0 ∷ 0 ∷ 0 ∷ 0 ∷ 0 ∷ 0 ∷ 0 ∷ 0 ∷ 0 ∷ 0 ∷ 0 ∷ 0 ∷ 0 ∷ 0 ∷ 0 ∷ 0 ∷ 0 ∷ 0 ∷ 0 ∷ 0 ∷ 0 ∷ 0 ∷ 0 ∷ 0
    ∷ 0 ∷ 0 ∷ 0 ∷ 0 ∷ 0 ∷ 0 ∷ 0 ∷ 0 ∷ 0 ∷ 0 ∷ 0 ∷ 0 ∷ 0 ∷ 0 ∷ 0 ∷ 0 ∷ 0 ∷ 0 ∷ 0 ∷ 0 ∷ 0 ∷ 0 ∷ 0 ∷ 0
    ∷ 0 ∷ 0 ∷ 0 ∷ 0 ∷ 0 ∷ 0 ∷ 0 ∷ 0 ∷ 0 ∷ 0 ∷ 0 ∷ 0 ∷ 0 ∷ 0 ∷ 0 ∷ 0 ∷ 0 ∷ 0 ∷ 0 ∷ []
