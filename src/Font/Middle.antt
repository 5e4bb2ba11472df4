-- ===== src/Font/Middle.antt =====
-- A part of the table of kernel/drivers/fonts/basic8x8.h, a glyph of 16 rows for each character.
use system.Common.{List, [], ◌∷◌}
use system.Font.Entry.{Glyph, glyph}

unfoldable pub glyphs4 : List Glyph
glyphs4 =
    glyph b'D' (
      "........." ∷ "........." ∷ "........." ∷ ".#####..." ∷ "..##.##.." ∷ "..##..##."
      ∷ "..##..##." ∷ "..##..##." ∷ "..##..##." ∷ "..##..##." ∷ "..##..##." ∷ "..##.##.."
      ∷ ".#####..." ∷ "........." ∷ "........." ∷ "........." ∷ [])
    ∷ glyph b'E' (
        "........." ∷ "........." ∷ "........." ∷ ".#######." ∷ "..##..##." ∷ "..##...#."
        ∷ "..##.#..." ∷ "..####..." ∷ "..##.#..." ∷ "..##....." ∷ "..##...#." ∷ "..##..##."
        ∷ ".#######." ∷ "........." ∷ "........." ∷ "........." ∷ [])
    ∷ glyph b'F' (
        "........." ∷ "........." ∷ "........." ∷ ".#######." ∷ "..##..##." ∷ "..##...#."
        ∷ "..##.#..." ∷ "..####..." ∷ "..##.#..." ∷ "..##....." ∷ "..##....." ∷ "..##....."
        ∷ ".####...." ∷ "........." ∷ "........." ∷ "........." ∷ [])
    ∷ glyph b'G' (
        "........." ∷ "........." ∷ "........." ∷ "...####.." ∷ "..##..##." ∷ ".##....#."
        ∷ ".##......" ∷ ".##......" ∷ ".##.####." ∷ ".##...##." ∷ ".##...##." ∷ "..##..##."
        ∷ "...###.#." ∷ "........." ∷ "........." ∷ "........." ∷ [])
    ∷ glyph b'H' (
        "........." ∷ "........." ∷ "........." ∷ ".##...##." ∷ ".##...##." ∷ ".##...##."
        ∷ ".##...##." ∷ ".#######." ∷ ".##...##." ∷ ".##...##." ∷ ".##...##." ∷ ".##...##."
        ∷ ".##...##." ∷ "........." ∷ "........." ∷ "........." ∷ [])
    ∷ glyph b'I' (
        "........." ∷ "........." ∷ "........." ∷ "..####..." ∷ "...##...." ∷ "...##...."
        ∷ "...##...." ∷ "...##...." ∷ "...##...." ∷ "...##...." ∷ "...##...." ∷ "...##...."
        ∷ "..####..." ∷ "........." ∷ "........." ∷ "........." ∷ [])
    ∷ glyph b'J' (
        "........." ∷ "........." ∷ "........." ∷ "....####." ∷ ".....##.." ∷ ".....##.."
        ∷ ".....##.." ∷ ".....##.." ∷ ".....##.." ∷ ".##..##.." ∷ ".##..##.." ∷ ".##..##.."
        ∷ "..####..." ∷ "........." ∷ "........." ∷ "........." ∷ [])
    ∷ glyph b'K' (
        "........." ∷ "........." ∷ "........." ∷ ".###..##." ∷ "..##..##." ∷ "..##..##."
        ∷ "..##.##.." ∷ "..####..." ∷ "..####..." ∷ "..##.##.." ∷ "..##..##." ∷ "..##..##."
        ∷ ".###..##." ∷ "........." ∷ "........." ∷ "........." ∷ [])
    ∷ glyph b'L' (
        "........." ∷ "........." ∷ "........." ∷ ".####...." ∷ "..##....." ∷ "..##....."
        ∷ "..##....." ∷ "..##....." ∷ "..##....." ∷ "..##....." ∷ "..##...#." ∷ "..##..##."
        ∷ ".#######." ∷ "........." ∷ "........." ∷ "........." ∷ [])
    ∷ []

unfoldable pub glyphs5 : List Glyph
glyphs5 =
    glyph b'M' (
      "........." ∷ "........." ∷ "........." ∷ ".##....##" ∷ ".###..###" ∷ ".########"
      ∷ ".########" ∷ ".##.##.##" ∷ ".##....##" ∷ ".##....##" ∷ ".##....##" ∷ ".##....##"
      ∷ ".##....##" ∷ "........." ∷ "........." ∷ "........." ∷ [])
    ∷ glyph b'N' (
        "........." ∷ "........." ∷ "........." ∷ ".##...##." ∷ ".###..##." ∷ ".####.##."
        ∷ ".#######." ∷ ".##.####." ∷ ".##..###." ∷ ".##...##." ∷ ".##...##." ∷ ".##...##."
        ∷ ".##...##." ∷ "........." ∷ "........." ∷ "........." ∷ [])
    ∷ glyph b'O' (
        "........." ∷ "........." ∷ "........." ∷ "..#####.." ∷ ".##...##." ∷ ".##...##."
        ∷ ".##...##." ∷ ".##...##." ∷ ".##...##." ∷ ".##...##." ∷ ".##...##." ∷ ".##...##."
        ∷ "..#####.." ∷ "........." ∷ "........." ∷ "........." ∷ [])
    ∷ glyph b'P' (
        "........." ∷ "........." ∷ "........." ∷ ".######.." ∷ "..##..##." ∷ "..##..##."
        ∷ "..##..##." ∷ "..#####.." ∷ "..##....." ∷ "..##....." ∷ "..##....." ∷ "..##....."
        ∷ ".####...." ∷ "........." ∷ "........." ∷ "........." ∷ [])
    ∷ glyph b'Q' (
        "........." ∷ "........." ∷ "........." ∷ "..#####.." ∷ ".##...##." ∷ ".##...##."
        ∷ ".##...##." ∷ ".##...##." ∷ ".##...##." ∷ ".##...##." ∷ ".##.#.##." ∷ ".##.####."
        ∷ "..#####.." ∷ ".....##.." ∷ ".....###." ∷ "........." ∷ [])
    ∷ glyph b'R' (
        "........." ∷ "........." ∷ "........." ∷ ".######.." ∷ "..##..##." ∷ "..##..##."
        ∷ "..##..##." ∷ "..#####.." ∷ "..##.##.." ∷ "..##..##." ∷ "..##..##." ∷ "..##..##."
        ∷ ".###..##." ∷ "........." ∷ "........." ∷ "........." ∷ [])
    ∷ glyph b'S' (
        "........." ∷ "........." ∷ "........." ∷ "..#####.." ∷ ".##...##." ∷ ".##...##."
        ∷ "..##....." ∷ "...###..." ∷ ".....##.." ∷ "......##." ∷ ".##...##." ∷ ".##...##."
        ∷ "..#####.." ∷ "........." ∷ "........." ∷ "........." ∷ [])
    ∷ glyph b'T' (
        "........." ∷ "........." ∷ "........." ∷ ".########" ∷ ".##.##.##" ∷ ".#..##..#"
        ∷ "....##..." ∷ "....##..." ∷ "....##..." ∷ "....##..." ∷ "....##..." ∷ "....##..."
        ∷ "...####.." ∷ "........." ∷ "........." ∷ "........." ∷ [])
    ∷ glyph b'U' (
        "........." ∷ "........." ∷ "........." ∷ ".##...##." ∷ ".##...##." ∷ ".##...##."
        ∷ ".##...##." ∷ ".##...##." ∷ ".##...##." ∷ ".##...##." ∷ ".##...##." ∷ ".##...##."
        ∷ "..#####.." ∷ "........." ∷ "........." ∷ "........." ∷ [])
    ∷ []

unfoldable pub glyphs6 : List Glyph
glyphs6 =
    glyph b'V' (
      "........." ∷ "........." ∷ "........." ∷ ".##....##" ∷ ".##....##" ∷ ".##....##"
      ∷ ".##....##" ∷ ".##....##" ∷ ".##....##" ∷ ".##....##" ∷ "..##..##." ∷ "...####.."
      ∷ "....##..." ∷ "........." ∷ "........." ∷ "........." ∷ [])
    ∷ glyph b'W' (
        "........." ∷ "........." ∷ "........." ∷ ".##....##" ∷ ".##....##" ∷ ".##....##"
        ∷ ".##....##" ∷ ".##....##" ∷ ".##.##.##" ∷ ".##.##.##" ∷ ".########" ∷ "..##..##."
        ∷ "..##..##." ∷ "........." ∷ "........." ∷ "........." ∷ [])
    ∷ glyph b'X' (
        "........." ∷ "........." ∷ "........." ∷ ".##....##" ∷ ".##....##" ∷ "..##..##."
        ∷ "...####.." ∷ "....##..." ∷ "....##..." ∷ "...####.." ∷ "..##..##." ∷ ".##....##"
        ∷ ".##....##" ∷ "........." ∷ "........." ∷ "........." ∷ [])
    ∷ glyph b'Y' (
        "........." ∷ "........." ∷ "........." ∷ ".##....##" ∷ ".##....##" ∷ ".##....##"
        ∷ "..##..##." ∷ "...####.." ∷ "....##..." ∷ "....##..." ∷ "....##..." ∷ "....##..."
        ∷ "...####.." ∷ "........." ∷ "........." ∷ "........." ∷ [])
    ∷ glyph b'Z' (
        "........." ∷ "........." ∷ "........." ∷ ".########" ∷ ".##....##" ∷ ".#....##."
        ∷ ".....##.." ∷ "....##..." ∷ "...##...." ∷ "..##....." ∷ ".##.....#" ∷ ".##....##"
        ∷ ".########" ∷ "........." ∷ "........." ∷ "........." ∷ [])
    ∷ glyph b'[' (
        "........." ∷ "........." ∷ "........." ∷ "..####..." ∷ "..##....." ∷ "..##....."
        ∷ "..##....." ∷ "..##....." ∷ "..##....." ∷ "..##....." ∷ "..##....." ∷ "..##....."
        ∷ "..####..." ∷ "........." ∷ "........." ∷ "........." ∷ [])
    ∷ glyph 92 (
        "........." ∷ "........." ∷ "........." ∷ "........." ∷ "........." ∷ ".#......."
        ∷ ".##......" ∷ "..##....." ∷ "...##...." ∷ "....##..." ∷ ".....##.." ∷ "......##."
        ∷ ".......#." ∷ "........." ∷ "........." ∷ "........." ∷ [])
    ∷ glyph b']' (
        "........." ∷ "........." ∷ "........." ∷ "..####..." ∷ "....##..." ∷ "....##..."
        ∷ "....##..." ∷ "....##..." ∷ "....##..." ∷ "....##..." ∷ "....##..." ∷ "....##..."
        ∷ "..####..." ∷ "........." ∷ "........." ∷ "........." ∷ [])
    ∷ glyph b'^' (
        "........." ∷ "........." ∷ "....#...." ∷ "...###..." ∷ "..##.##.." ∷ ".##...##."
        ∷ "........." ∷ "........." ∷ "........." ∷ "........." ∷ "........." ∷ "........."
        ∷ "........." ∷ "........." ∷ "........." ∷ "........." ∷ [])
    ∷ []

unfoldable pub glyphs7 : List Glyph
glyphs7 =
    glyph b'_' (
      "........." ∷ "........." ∷ "........." ∷ "........." ∷ "........." ∷ "........."
      ∷ "........." ∷ "........." ∷ "........." ∷ "........." ∷ "........." ∷ "........."
      ∷ "........." ∷ "........." ∷ ".########" ∷ "........." ∷ [])
    ∷ glyph b'`' (
        "........." ∷ "........." ∷ "........." ∷ "........." ∷ "...##...." ∷ "...##...."
        ∷ "....##..." ∷ "........." ∷ "........." ∷ "........." ∷ "........." ∷ "........."
        ∷ "........." ∷ "........." ∷ "........." ∷ "........." ∷ [])
    ∷ glyph b'a' (
        "........." ∷ "........." ∷ "........." ∷ "........." ∷ "........." ∷ "........."
        ∷ "..####..." ∷ ".....##.." ∷ "..#####.." ∷ ".##..##.." ∷ ".##..##.." ∷ ".##..##.."
        ∷ "..###.##." ∷ "........." ∷ "........." ∷ "........." ∷ [])
    ∷ glyph b'b' (
        "........." ∷ "........." ∷ "........." ∷ ".###....." ∷ "..##....." ∷ "..##....."
        ∷ "..####..." ∷ "..##.##.." ∷ "..##..##." ∷ "..##..##." ∷ "..##..##." ∷ "..##..##."
        ∷ "..#####.." ∷ "........." ∷ "........." ∷ "........." ∷ [])
    ∷ glyph b'c' (
        "........." ∷ "........." ∷ "........." ∷ "........." ∷ "........." ∷ "........."
        ∷ "..#####.." ∷ ".##...##." ∷ ".##......" ∷ ".##......" ∷ ".##......" ∷ ".##...##."
        ∷ "..#####.." ∷ "........." ∷ "........." ∷ "........." ∷ [])
    ∷ glyph b'd' (
        "........." ∷ "........." ∷ "....###.." ∷ ".....##.." ∷ ".....##.." ∷ ".....##.."
        ∷ "...####.." ∷ "..##.##.." ∷ ".##..##.." ∷ ".##..##.." ∷ ".##..##.." ∷ ".##..##.."
        ∷ "..###.##." ∷ "........." ∷ "........." ∷ "........." ∷ [])
    ∷ glyph b'e' (
        "........." ∷ "........." ∷ "........." ∷ "........." ∷ "........." ∷ "........."
        ∷ "..#####.." ∷ ".##...##." ∷ ".#######." ∷ ".##......" ∷ ".##......" ∷ ".##...##."
        ∷ "..#####.." ∷ "........." ∷ "........." ∷ "........." ∷ [])
    ∷ glyph b'f' (
        "........." ∷ "........." ∷ "........." ∷ "...###..." ∷ "..##.##.." ∷ "..##..#.."
        ∷ "..##....." ∷ ".####...." ∷ "..##....." ∷ "..##....." ∷ "..##....." ∷ "..##....."
        ∷ ".####...." ∷ "........." ∷ "........." ∷ "........." ∷ [])
    ∷ glyph b'g' (
        "........." ∷ "........." ∷ "........." ∷ "........." ∷ "........." ∷ "........."
        ∷ "..###.##." ∷ ".##..##.." ∷ ".##..##.." ∷ ".##..##.." ∷ ".##..##.." ∷ ".##..##.."
        ∷ "..#####.." ∷ ".....##.." ∷ ".##..##.." ∷ "..####..." ∷ [])
    ∷ []
