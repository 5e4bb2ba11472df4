-- ===== src/Font/High.antt =====
-- A part of the table of kernel/drivers/fonts/basic8x8.h, a glyph of 16 rows for each character.
use system.Common.{List, [], ◌∷◌}
use system.Font.Entry.{Glyph, glyph}

unfoldable pub glyphs8 : List Glyph
glyphs8 =
    glyph b'h' (
      "........." ∷ "........." ∷ "........." ∷ ".###....." ∷ "..##....." ∷ "..##....."
      ∷ "..##.##.." ∷ "..###.##." ∷ "..##..##." ∷ "..##..##." ∷ "..##..##." ∷ "..##..##."
      ∷ ".###..##." ∷ "........." ∷ "........." ∷ "........." ∷ [])
    ∷ glyph b'i' (
        "........." ∷ "........." ∷ "........." ∷ "...##...." ∷ "...##...." ∷ "........."
        ∷ "..###...." ∷ "...##...." ∷ "...##...." ∷ "...##...." ∷ "...##...." ∷ "...##...."
        ∷ "..####..." ∷ "........." ∷ "........." ∷ "........." ∷ [])
    ∷ glyph b'j' (
        "........." ∷ "........." ∷ "........." ∷ ".....##.." ∷ ".....##.." ∷ "........."
        ∷ "....###.." ∷ ".....##.." ∷ ".....##.." ∷ ".....##.." ∷ ".....##.." ∷ ".....##.."
        ∷ ".....##.." ∷ ".##..##.." ∷ ".##..##.." ∷ "..####..." ∷ [])
    ∷ glyph b'k' (
        "........." ∷ "........." ∷ "........." ∷ ".###....." ∷ "..##....." ∷ "..##....."
        ∷ "..##..##." ∷ "..##.##.." ∷ "..####..." ∷ "..####..." ∷ "..##.##.." ∷ "..##..##."
        ∷ ".###..##." ∷ "........." ∷ "........." ∷ "........." ∷ [])
    ∷ glyph b'l' (
        "........." ∷ "........." ∷ "........." ∷ "..###...." ∷ "...##...." ∷ "...##...."
        ∷ "...##...." ∷ "...##...." ∷ "...##...." ∷ "...##...." ∷ "...##...." ∷ "...##...."
        ∷ "..####..." ∷ "........." ∷ "........." ∷ "........." ∷ [])
    ∷ glyph b'm' (
        "........." ∷ "........." ∷ "........." ∷ "........." ∷ "........." ∷ "........."
        ∷ ".###..##." ∷ ".########" ∷ ".##.##.##" ∷ ".##.##.##" ∷ ".##.##.##" ∷ ".##.##.##"
        ∷ ".##.##.##" ∷ "........." ∷ "........." ∷ "........." ∷ [])
    ∷ glyph b'n' (
        "........." ∷ "........." ∷ "........." ∷ "........." ∷ "........." ∷ "........."
        ∷ ".##.###.." ∷ "..##..##." ∷ "..##..##." ∷ "..##..##." ∷ "..##..##." ∷ "..##..##."
        ∷ "..##..##." ∷ "........." ∷ "........." ∷ "........." ∷ [])
    ∷ glyph b'o' (
        "........." ∷ "........." ∷ "........." ∷ "........." ∷ "........." ∷ "........."
        ∷ "..#####.." ∷ ".##...##." ∷ ".##...##." ∷ ".##...##." ∷ ".##...##." ∷ ".##...##."
        ∷ "..#####.." ∷ "........." ∷ "........." ∷ "........." ∷ [])
    ∷ glyph b'p' (
        "........." ∷ "........." ∷ "........." ∷ "........." ∷ "........." ∷ "........."
        ∷ ".##.###.." ∷ "..##..##." ∷ "..##..##." ∷ "..##..##." ∷ "..##..##." ∷ "..##..##."
        ∷ "..#####.." ∷ "..##....." ∷ "..##....." ∷ ".####...." ∷ [])
    ∷ []

unfoldable pub glyphs9 : List Glyph
glyphs9 =
    glyph b'q' (
      "........." ∷ "........." ∷ "........." ∷ "........." ∷ "........." ∷ "........."
      ∷ "..###.##." ∷ ".##..##.." ∷ ".##..##.." ∷ ".##..##.." ∷ ".##..##.." ∷ ".##..##.."
      ∷ "..#####.." ∷ ".....##.." ∷ "....####." ∷ "........." ∷ [])
    ∷ glyph b'r' (
        "........." ∷ "........." ∷ "........." ∷ "........." ∷ "........." ∷ "........."
        ∷ ".##.###.." ∷ "..###.##." ∷ "..##..##." ∷ "..##....." ∷ "..##....." ∷ "..##....."
        ∷ ".####...." ∷ "........." ∷ "........." ∷ "........." ∷ [])
    ∷ glyph b's' (
        "........." ∷ "........." ∷ "........." ∷ "........." ∷ "........." ∷ "........."
        ∷ "..#####.." ∷ ".##...##." ∷ "..##....." ∷ "...###..." ∷ ".....##.." ∷ ".##...##."
        ∷ "..#####.." ∷ "........." ∷ "........." ∷ "........." ∷ [])
    ∷ glyph b't' (
        "........." ∷ "........." ∷ "........." ∷ "....#...." ∷ "...##...." ∷ "...##...."
        ∷ ".######.." ∷ "...##...." ∷ "...##...." ∷ "...##...." ∷ "...##...." ∷ "...##.##."
        ∷ "....###.." ∷ "........." ∷ "........." ∷ "........." ∷ [])
    ∷ glyph b'u' (
        "........." ∷ "........." ∷ "........." ∷ "........." ∷ "........." ∷ "........."
        ∷ ".##..##.." ∷ ".##..##.." ∷ ".##..##.." ∷ ".##..##.." ∷ ".##..##.." ∷ ".##..##.."
        ∷ "..###.##." ∷ "........." ∷ "........." ∷ "........." ∷ [])
    ∷ glyph b'v' (
        "........." ∷ "........." ∷ "........." ∷ "........." ∷ "........." ∷ "........."
        ∷ ".##....##" ∷ ".##....##" ∷ ".##....##" ∷ ".##....##" ∷ "..##..##." ∷ "...####.."
        ∷ "....##..." ∷ "........." ∷ "........." ∷ "........." ∷ [])
    ∷ glyph b'w' (
        "........." ∷ "........." ∷ "........." ∷ "........." ∷ "........." ∷ "........."
        ∷ ".##....##" ∷ ".##....##" ∷ ".##....##" ∷ ".##.##.##" ∷ ".##.##.##" ∷ ".########"
        ∷ "..##..##." ∷ "........." ∷ "........." ∷ "........." ∷ [])
    ∷ glyph b'x' (
        "........." ∷ "........." ∷ "........." ∷ "........." ∷ "........." ∷ "........."
        ∷ ".##....##" ∷ "..##..##." ∷ "...####.." ∷ "....##..." ∷ "...####.." ∷ "..##..##."
        ∷ ".##....##" ∷ "........." ∷ "........." ∷ "........." ∷ [])
    ∷ glyph b'y' (
        "........." ∷ "........." ∷ "........." ∷ "........." ∷ "........." ∷ "........."
        ∷ ".##....##" ∷ ".##....##" ∷ ".##....##" ∷ ".##....##" ∷ ".##....##" ∷ ".##....##"
        ∷ "..######." ∷ "......##." ∷ ".....##.." ∷ ".#####..." ∷ [])
    ∷ []

unfoldable pub glyphs10 : List Glyph
glyphs10 =
    glyph b'z' (
      "........." ∷ "........." ∷ "........." ∷ "........." ∷ "........." ∷ "........."
      ∷ ".#######." ∷ ".##..##.." ∷ "....##..." ∷ "...##...." ∷ "..##....." ∷ ".##...##."
      ∷ ".#######." ∷ "........." ∷ "........." ∷ "........." ∷ [])
    ∷ glyph b'{' (
        "........." ∷ "........." ∷ "........." ∷ "....###.." ∷ "...##...." ∷ "...##...."
        ∷ "...##...." ∷ ".###....." ∷ "...##...." ∷ "...##...." ∷ "...##...." ∷ "...##...."
        ∷ "....###.." ∷ "........." ∷ "........." ∷ "........." ∷ [])
    ∷ glyph b'|' (
        "........." ∷ "........." ∷ "........." ∷ "...##...." ∷ "...##...." ∷ "...##...."
        ∷ "...##...." ∷ "........." ∷ "...##...." ∷ "...##...." ∷ "...##...." ∷ "...##...."
        ∷ "...##...." ∷ "........." ∷ "........." ∷ "........." ∷ [])
    ∷ glyph b'}' (
        "........." ∷ "........." ∷ "........." ∷ ".####...." ∷ "....##..." ∷ "....##..."
        ∷ "....##..." ∷ ".....###." ∷ "....##..." ∷ "....##..." ∷ "....##..." ∷ "....##..."
        ∷ ".####...." ∷ "........." ∷ "........." ∷ "........." ∷ [])
    ∷ glyph b'~' (
        "........." ∷ "........." ∷ "........." ∷ "........." ∷ "........." ∷ "........."
        ∷ "........." ∷ "..###.##." ∷ ".##.###.." ∷ "........." ∷ "........." ∷ "........."
        ∷ "........." ∷ "........." ∷ "........." ∷ "........." ∷ [])
    ∷ glyph 8 (
        "#########" ∷ "#########" ∷ "#########" ∷ "#########" ∷ "#########" ∷ "#########"
        ∷ "#########" ∷ "#########" ∷ "#########" ∷ "#########" ∷ "#########" ∷ "#########"
        ∷ "#########" ∷ "#########" ∷ "#########" ∷ "#########" ∷ [])
    ∷ []
