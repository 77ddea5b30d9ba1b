-- ===== src/Meta/MacroTables.antt =====
-- tyndall/meta/macro.h: the macros that stand for a number each.
use tyndall.Base.{ℕ, List, [], ◌∷◌}

-- The macros M_DEC_1 to M_DEC_127, with what each stands for. There is no M_DEC_0.
unfoldable pub dec_table : List (ℕ × ℕ)
dec_table =
    (1, 0)
    ∷ (2, 1)
    ∷ (3, 2)
    ∷ (4, 3)
    ∷ (5, 4)
    ∷ (6, 5)
    ∷ (7, 6)
    ∷ (8, 7)
    ∷ (9, 8)
    ∷ (10, 9)
    ∷ (11, 10)
    ∷ (12, 11)
    ∷ (13, 12)
    ∷ (14, 13)
    ∷ (15, 14)
    ∷ (16, 15)
    ∷ (17, 16)
    ∷ (18, 17)
    ∷ (19, 18)
    ∷ (20, 19)
    ∷ (21, 20)
    ∷ (22, 21)
    ∷ (23, 22)
    ∷ (24, 23)
    ∷ (25, 24)
    ∷ (26, 25)
    ∷ (27, 26)
    ∷ (28, 27)
    ∷ (29, 28)
    ∷ (30, 29)
    ∷ (31, 30)
    ∷ (32, 31)
    ∷ (33, 32)
    ∷ (34, 33)
    ∷ (35, 34)
    ∷ (36, 35)
    ∷ (37, 36)
    ∷ (38, 37)
    ∷ (39, 38)
    ∷ (40, 39)
    ∷ (41, 40)
    ∷ (42, 41)
    ∷ (43, 42)
    ∷ (44, 43)
    ∷ (45, 44)
    ∷ (46, 45)
    ∷ (47, 46)
    ∷ (48, 47)
    ∷ (49, 48)
    ∷ (50, 49)
    ∷ (51, 50)
    ∷ (52, 51)
    ∷ (53, 52)
    ∷ (54, 53)
    ∷ (55, 54)
    ∷ (56, 55)
    ∷ (57, 56)
    ∷ (58, 57)
    ∷ (59, 58)
    ∷ (60, 59)
    ∷ (61, 60)
    ∷ (62, 61)
    ∷ (63, 62)
    ∷ (64, 63)
    ∷ (65, 64)
    ∷ (66, 65)
    ∷ (67, 66)
    ∷ (68, 67)
    ∷ (69, 68)
    ∷ (70, 69)
    ∷ (71, 70)
    ∷ (72, 71)
    ∷ (73, 72)
    ∷ (74, 73)
    ∷ (75, 74)
    ∷ (76, 75)
    ∷ (77, 76)
    ∷ (78, 77)
    ∷ (79, 78)
    ∷ (80, 79)
    ∷ (81, 80)
    ∷ (82, 81)
    ∷ (83, 82)
    ∷ (84, 83)
    ∷ (85, 84)
    ∷ (86, 85)
    ∷ (87, 86)
    ∷ (88, 87)
    ∷ (89, 88)
    ∷ (90, 89)
    ∷ (91, 90)
    ∷ (92, 91)
    ∷ (93, 92)
    ∷ (94, 93)
    ∷ (95, 94)
    ∷ (96, 95)
    ∷ (97, 96)
    ∷ (98, 97)
    ∷ (99, 98)
    ∷ (100, 99)
    ∷ (101, 100)
    ∷ (102, 101)
    ∷ (103, 102)
    ∷ (104, 103)
    ∷ (105, 104)
    ∷ (106, 105)
    ∷ (107, 106)
    ∷ (108, 107)
    ∷ (109, 108)
    ∷ (110, 109)
    ∷ (111, 110)
    ∷ (112, 111)
    ∷ (113, 112)
    ∷ (114, 113)
    ∷ (115, 114)
    ∷ (116, 115)
    ∷ (117, 116)
    ∷ (118, 117)
    ∷ (119, 118)
    ∷ (120, 119)
    ∷ (121, 120)
    ∷ (122, 121)
    ∷ (123, 122)
    ∷ (124, 123)
    ∷ (125, 124)
    ∷ (126, 125)
    ∷ (127, 126)
    ∷ []

-- The macros M_INC_0 to M_INC_127.
unfoldable pub inc_table : List (ℕ × ℕ)
inc_table =
    (0, 1)
    ∷ (1, 2)
    ∷ (2, 3)
    ∷ (3, 4)
    ∷ (4, 5)
    ∷ (5, 6)
    ∷ (6, 7)
    ∷ (7, 8)
    ∷ (8, 9)
    ∷ (9, 10)
    ∷ (10, 11)
    ∷ (11, 12)
    ∷ (12, 13)
    ∷ (13, 14)
    ∷ (14, 15)
    ∷ (15, 16)
    ∷ (16, 17)
    ∷ (17, 18)
    ∷ (18, 19)
    ∷ (19, 20)
    ∷ (20, 21)
    ∷ (21, 22)
    ∷ (22, 23)
    ∷ (23, 24)
    ∷ (24, 25)
    ∷ (25, 26)
    ∷ (26, 27)
    ∷ (27, 28)
    ∷ (28, 29)
    ∷ (29, 30)
    ∷ (30, 31)
    ∷ (31, 32)
    ∷ (32, 33)
    ∷ (33, 34)
    ∷ (34, 35)
    ∷ (35, 36)
    ∷ (36, 37)
    ∷ (37, 38)
    ∷ (38, 39)
    ∷ (39, 40)
    ∷ (40, 41)
    ∷ (41, 42)
    ∷ (42, 43)
    ∷ (43, 44)
    ∷ (44, 45)
    ∷ (45, 46)
    ∷ (46, 47)
    ∷ (47, 48)
    ∷ (48, 49)
    ∷ (49, 50)
    ∷ (50, 51)
    ∷ (51, 52)
    ∷ (52, 53)
    ∷ (53, 54)
    ∷ (54, 55)
    ∷ (55, 56)
    ∷ (56, 57)
    ∷ (57, 58)
    ∷ (58, 59)
    ∷ (59, 60)
    ∷ (60, 61)
    ∷ (61, 62)
    ∷ (62, 63)
    ∷ (63, 64)
    ∷ (64, 65)
    ∷ (65, 66)
    ∷ (66, 67)
    ∷ (67, 68)
    ∷ (68, 69)
    ∷ (69, 70)
    ∷ (70, 71)
    ∷ (71, 72)
    ∷ (72, 73)
    ∷ (73, 74)
    ∷ (74, 75)
    ∷ (75, 76)
    ∷ (76, 77)
    ∷ (77, 78)
    ∷ (78, 79)
    ∷ (79, 80)
    ∷ (80, 81)
    ∷ (81, 82)
    ∷ (82, 83)
    ∷ (83, 84)
    ∷ (84, 85)
    ∷ (85, 86)
    ∷ (86, 87)
    ∷ (87, 88)
    ∷ (88, 89)
    ∷ (89, 90)
    ∷ (90, 91)
    ∷ (91, 92)
    ∷ (92, 93)
    ∷ (93, 94)
    ∷ (94, 95)
    ∷ (95, 96)
    ∷ (96, 97)
    ∷ (97, 98)
    ∷ (98, 99)
    ∷ (99, 100)
    ∷ (100, 101)
    ∷ (101, 102)
    ∷ (102, 103)
    ∷ (103, 104)
    ∷ (104, 105)
    ∷ (105, 106)
    ∷ (106, 107)
    ∷ (107, 108)
    ∷ (108, 109)
    ∷ (109, 110)
    ∷ (110, 111)
    ∷ (111, 112)
    ∷ (112, 113)
    ∷ (113, 114)
    ∷ (114, 115)
    ∷ (115, 116)
    ∷ (116, 117)
    ∷ (117, 118)
    ∷ (118, 119)
    ∷ (119, 120)
    ∷ (120, 121)
    ∷ (121, 122)
    ∷ (122, 123)
    ∷ (123, 124)
    ∷ (124, 125)
    ∷ (125, 126)
    ∷ (126, 127)
    ∷ (127, 0)
    ∷ []

-- The macros M_COMPARE_0 to M_COMPARE_127.
unfoldable pub compare_table : List ℕ
compare_table =
    0 ∷ 1 ∷ 2 ∷ 3 ∷ 4 ∷ 5 ∷ 6 ∷ 7 ∷ 8 ∷ 9 ∷ 10 ∷ 11 ∷ 12 ∷ 13 ∷ 14 ∷ 15 ∷ 16 ∷ 17 ∷ 18 ∷ 19 ∷ 20
    ∷ 21 ∷ 22 ∷ 23 ∷ 24 ∷ 25 ∷ 26 ∷ 27 ∷ 28 ∷ 29 ∷ 30 ∷ 31 ∷ 32 ∷ 33 ∷ 34 ∷ 35 ∷ 36 ∷ 37 ∷ 38 ∷ 39
    ∷ 40 ∷ 41 ∷ 42 ∷ 43 ∷ 44 ∷ 45 ∷ 46 ∷ 47 ∷ 48 ∷ 49 ∷ 50 ∷ 51 ∷ 52 ∷ 53 ∷ 54 ∷ 55 ∷ 56 ∷ 57 ∷ 58
    ∷ 59 ∷ 60 ∷ 61 ∷ 62 ∷ 63 ∷ 64 ∷ 65 ∷ 66 ∷ 67 ∷ 68 ∷ 69 ∷ 70 ∷ 71 ∷ 72 ∷ 73 ∷ 74 ∷ 75 ∷ 76 ∷ 77
    ∷ 78 ∷ 79 ∷ 80 ∷ 81 ∷ 82 ∷ 83 ∷ 84 ∷ 85 ∷ 86 ∷ 87 ∷ 88 ∷ 89 ∷ 90 ∷ 91 ∷ 92 ∷ 93 ∷ 94 ∷ 95 ∷ 96
    ∷ 97 ∷ 98 ∷ 99 ∷ 100 ∷ 101 ∷ 102 ∷ 103 ∷ 104 ∷ 105 ∷ 106 ∷ 107 ∷ 108 ∷ 109 ∷ 110 ∷ 111 ∷ 112
    ∷ 113 ∷ 114 ∷ 115 ∷ 116 ∷ 117 ∷ 118 ∷ 119 ∷ 120 ∷ 121 ∷ 122 ∷ 123 ∷ 124 ∷ 125 ∷ 126 ∷ 127 ∷ []
