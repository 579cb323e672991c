-- ===== src/Keyboard/Layout.antt =====
-- The layout tables of kernel/keyboard.c, and the scancode of a character.
-- Past the entries written out the tables of 128 hold 0, which is what a look-up past the end gives.
use skez_os.Prelude.{
  ℕ, ◌+◌, ◌-◌, Bool, true, false, ◌&&◌, Option, none, some, List, [], ◌∷◌, leb, ◌==◌, if◌then◌else◌,
  get_or,
}

abbrev pub kbd_us : List ℕ
kbd_us =
    0 ∷ 27 ∷ 49 ∷ 50 ∷ 51 ∷ 52 ∷ 53 ∷ 54 ∷ 55 ∷ 56 ∷ 57 ∷ 48 ∷ 45 ∷ 61 ∷ 8 ∷ 9 ∷ 113 ∷ 119 ∷ 101
    ∷ 114 ∷ 116 ∷ 121 ∷ 117 ∷ 105 ∷ 111 ∷ 112 ∷ 91 ∷ 93 ∷ 10 ∷ 0 ∷ 97 ∷ 115 ∷ 100 ∷ 102 ∷ 103 ∷ 104
    ∷ 106 ∷ 107 ∷ 108 ∷ 59 ∷ 39 ∷ 96 ∷ 0 ∷ 92 ∷ 122 ∷ 120 ∷ 99 ∷ 118 ∷ 98 ∷ 110 ∷ 109 ∷ 44 ∷ 46 ∷ 47
    ∷ 0 ∷ 42 ∷ 0 ∷ 32 ∷ []

abbrev pub kbd_us_shift : List ℕ
kbd_us_shift =
    0 ∷ 27 ∷ 33 ∷ 64 ∷ 35 ∷ 36 ∷ 37 ∷ 94 ∷ 38 ∷ 42 ∷ 40 ∷ 41 ∷ 95 ∷ 43 ∷ 8 ∷ 9 ∷ 81 ∷ 87 ∷ 69 ∷ 82
    ∷ 84 ∷ 89 ∷ 85 ∷ 73 ∷ 79 ∷ 80 ∷ 123 ∷ 125 ∷ 10 ∷ 0 ∷ 65 ∷ 83 ∷ 68 ∷ 70 ∷ 71 ∷ 72 ∷ 74 ∷ 75 ∷ 76
    ∷ 58 ∷ 34 ∷ 126 ∷ 0 ∷ 124 ∷ 90 ∷ 88 ∷ 67 ∷ 86 ∷ 66 ∷ 78 ∷ 77 ∷ 60 ∷ 62 ∷ 63 ∷ 0 ∷ 42 ∷ 0 ∷ 32
    ∷ []

-- `table` of `ascii_to_scancode`, for the letters.
abbrev letters : List ℕ
letters =
    30 ∷ 48 ∷ 46 ∷ 32 ∷ 18 ∷ 33 ∷ 34 ∷ 35 ∷ 23 ∷ 36 ∷ 37 ∷ 38 ∷ 50 ∷ 49 ∷ 24 ∷ 25 ∷ 16 ∷ 19 ∷ 31
    ∷ 20 ∷ 22 ∷ 47 ∷ 17 ∷ 45 ∷ 21 ∷ 44 ∷ []

-- The cases of its switch.
abbrev switch_cases : List (ℕ × ℕ)
switch_cases =
    (49, 2)
    ∷ (50, 3)
    ∷ (51, 4)
    ∷ (52, 5)
    ∷ (53, 6)
    ∷ (54, 7)
    ∷ (55, 8)
    ∷ (56, 9)
    ∷ (57, 10)
    ∷ (48, 11)
    ∷ (13, 28)
    ∷ (10, 28)
    ∷ (8, 14)
    ∷ (9, 15)
    ∷ (32, 57)
    ∷ (45, 12)
    ∷ (61, 13)
    ∷ (91, 26)
    ∷ (93, 27)
    ∷ (59, 39)
    ∷ (39, 40)
    ∷ (96, 41)
    ∷ (92, 43)
    ∷ (44, 51)
    ∷ (46, 52)
    ∷ (47, 53)
    ∷ []

abbrev pub assoc : ℕ → List (ℕ × ℕ) → Option ℕ
assoc c [] = none
assoc c ((a, code) ∷ rest) = if c == a then some code else assoc c rest

-- The code and whether shift is needed; `none` is the result false.
unfoldable pub ascii_to_scancode : ℕ → Option (ℕ × Bool)
ascii_to_scancode c =
    if leb 97 c && leb c 122
    then some (get_or letters (c - 97) 0, false)
    else if leb 65 c && leb c 90
    then some (get_or letters (c - 65 + 97 - 97) 0, true)
    else elim (assoc c switch_cases) [ none ↦ none | some code ↦ some (code, false) ]
