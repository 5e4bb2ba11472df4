-- ===== src/Font/Low.antt =====
-- A part of the table of kernel/drivers/fonts/basic8x8.h, a glyph of 16 rows for each character.
use system.Common.{List, [], ◌∷◌}
use system.Font.Entry.{Glyph, glyph}

unfoldable pub glyphs0 : List Glyph
glyphs0 =
    glyph b' ' (
      "#########" ∷ "#########" ∷ "#########" ∷ "#########" ∷ "#########" ∷ "#########"
      ∷ "#########" ∷ "#########" ∷ "#########" ∷ "#########" ∷ "#########" ∷ "#########"
      ∷ "#########" ∷ "#########" ∷ "#########" ∷ "#########" ∷ [])
    ∷ glyph b'!' (
        "........." ∷ "........." ∷ "........." ∷ "....##..." ∷ "...####.." ∷ "...####.."
        ∷ "...####.." ∷ "....##..." ∷ "....##..." ∷ "....##..." ∷ "........." ∷ "....##..."
        ∷ "....##..." ∷ "........." ∷ "........." ∷ "........." ∷ [])
    ∷ glyph 34 (
        "........." ∷ "........." ∷ "........." ∷ ".##...##." ∷ ".##...##." ∷ ".##...##."
        ∷ ".#...##.." ∷ "........." ∷ "........." ∷ "........." ∷ "........." ∷ "........."
        ∷ "........." ∷ "........." ∷ "........." ∷ "........." ∷ [])
    ∷ glyph b'#' (
        "........." ∷ "........." ∷ "........." ∷ "........." ∷ "..##.##.." ∷ "..##.##.."
        ∷ ".#######." ∷ "..##.##.." ∷ "..##.##.." ∷ "..##.##.." ∷ ".#######." ∷ "..##.##.."
        ∷ "..##.##.." ∷ "........." ∷ "........." ∷ "........." ∷ [])
    ∷ glyph b'$' (
        "........." ∷ "....##..." ∷ "....##..." ∷ "..#####.." ∷ ".##...##." ∷ ".##....#."
        ∷ ".##......" ∷ "..#####.." ∷ "......##." ∷ "......##." ∷ ".#....##." ∷ ".##...##."
        ∷ "..#####.." ∷ "....##..." ∷ "....##..." ∷ "........." ∷ [])
    ∷ glyph b'%' (
        "........." ∷ "........." ∷ "........." ∷ "........." ∷ "........." ∷ "........."
        ∷ ".##...#.." ∷ ".##..##.." ∷ "....##..." ∷ "...##...." ∷ "..##....." ∷ ".##..##.."
        ∷ ".#...##.." ∷ "........." ∷ "........." ∷ "........." ∷ [])
    ∷ glyph b'&' (
        "........." ∷ "........." ∷ "........." ∷ "...###..." ∷ "..##.##.." ∷ "..##.##.."
        ∷ "...###..." ∷ "..###.##." ∷ ".##.###.." ∷ ".##..##.." ∷ ".##..##.." ∷ ".##..##.."
        ∷ "..###.##." ∷ "........." ∷ "........." ∷ "........." ∷ [])
    ∷ glyph 39 (
        "........." ∷ "........." ∷ "........." ∷ ".....##.." ∷ ".....##.." ∷ ".....##.."
        ∷ "......#.." ∷ "........." ∷ "........." ∷ "........." ∷ "........." ∷ "........."
        ∷ "........." ∷ "........." ∷ "........." ∷ "........." ∷ [])
    ∷ glyph b'(' (
        "........." ∷ "....##..." ∷ "...##...." ∷ "..##....." ∷ "..##....." ∷ "..##....."
        ∷ "..##....." ∷ "..##....." ∷ "..##....." ∷ "..##....." ∷ "..##....." ∷ "...##...."
        ∷ "....##..." ∷ "........." ∷ "........." ∷ "........." ∷ [])
    ∷ []

unfoldable pub glyphs1 : List Glyph
glyphs1 =
    glyph b')' (
      "........." ∷ "..##....." ∷ "...##...." ∷ "....##..." ∷ "....##..." ∷ "....##..."
      ∷ "....##..." ∷ "....##..." ∷ "....##..." ∷ "....##..." ∷ "....##..." ∷ "...##...."
      ∷ "..##....." ∷ "........." ∷ "........." ∷ "........." ∷ [])
    ∷ glyph b'*' (
        "........." ∷ "........." ∷ "........." ∷ "........." ∷ "........." ∷ "..##..##."
        ∷ "...####.." ∷ ".########" ∷ "...####.." ∷ "..##..##." ∷ "........." ∷ "........."
        ∷ "........." ∷ "........." ∷ "........." ∷ "........." ∷ [])
    ∷ glyph b'+' (
        "........." ∷ "........." ∷ "........." ∷ "........." ∷ "........." ∷ "........."
        ∷ "........." ∷ "........." ∷ "...##...." ∷ "...##...." ∷ ".######.." ∷ "...##...."
        ∷ "...##...." ∷ "........." ∷ "........." ∷ "........." ∷ [])
    ∷ glyph b',' (
        "........." ∷ "........." ∷ "........." ∷ "........." ∷ "........." ∷ "........."
        ∷ "........." ∷ "........." ∷ "........." ∷ "........." ∷ "........." ∷ "...##...."
        ∷ "...##...." ∷ "...##...." ∷ "..##....." ∷ "........." ∷ [])
    ∷ glyph b'-' (
        "........." ∷ "........." ∷ "........." ∷ "........." ∷ "........." ∷ "........."
        ∷ "........." ∷ ".#######." ∷ "........." ∷ "........." ∷ "........." ∷ "........."
        ∷ "........." ∷ "........." ∷ "........." ∷ "........." ∷ [])
    ∷ glyph b'.' (
        "........." ∷ "........." ∷ "........." ∷ "........." ∷ "........." ∷ "........."
        ∷ "........." ∷ "........." ∷ "........." ∷ "........." ∷ "........." ∷ "....##..."
        ∷ "....##..." ∷ "........." ∷ "........." ∷ "........." ∷ [])
    ∷ glyph b'/' (
        "........." ∷ "........." ∷ "........." ∷ "........." ∷ "........." ∷ ".......#."
        ∷ "......##." ∷ ".....##.." ∷ "....##..." ∷ "...##...." ∷ "..##....." ∷ ".##......"
        ∷ ".#......." ∷ "........." ∷ "........." ∷ "........." ∷ [])
    ∷ glyph b'0' (
        "........." ∷ "........." ∷ "........." ∷ "...####.." ∷ "..##..##." ∷ ".##....##"
        ∷ ".##....##" ∷ ".##.##.##" ∷ ".##.##.##" ∷ ".##....##" ∷ ".##....##" ∷ "..##..##."
        ∷ "...####.." ∷ "........." ∷ "........." ∷ "........." ∷ [])
    ∷ glyph b'1' (
        "........." ∷ "........." ∷ "........." ∷ "...##...." ∷ "..###...." ∷ ".####...."
        ∷ "...##...." ∷ "...##...." ∷ "...##...." ∷ "...##...." ∷ "...##...." ∷ "...##...."
        ∷ ".######.." ∷ "........." ∷ "........." ∷ "........." ∷ [])
    ∷ []

unfoldable pub glyphs2 : List Glyph
glyphs2 =
    glyph b'2' (
      "........." ∷ "........." ∷ "........." ∷ "..#####.." ∷ ".##...##." ∷ "......##."
      ∷ ".....##.." ∷ "....##..." ∷ "...##...." ∷ "..##....." ∷ ".##......" ∷ ".##...##."
      ∷ ".#######." ∷ "........." ∷ "........." ∷ "........." ∷ [])
    ∷ glyph b'3' (
        "........." ∷ "........." ∷ "........." ∷ "..#####.." ∷ ".##...##." ∷ "......##."
        ∷ "......##." ∷ "...####.." ∷ "......##." ∷ "......##." ∷ "......##." ∷ ".##...##."
        ∷ "..#####.." ∷ "........." ∷ "........." ∷ "........." ∷ [])
    ∷ glyph b'4' (
        "........." ∷ "........." ∷ "........." ∷ ".....##.." ∷ "....###.." ∷ "...####.."
        ∷ "..##.##.." ∷ ".##..##.." ∷ ".#######." ∷ ".....##.." ∷ ".....##.." ∷ ".....##.."
        ∷ "....####." ∷ "........." ∷ "........." ∷ "........." ∷ [])
    ∷ glyph b'5' (
        "........." ∷ "........." ∷ "........." ∷ ".#######." ∷ ".##......" ∷ ".##......"
        ∷ ".##......" ∷ ".######.." ∷ "......##." ∷ "......##." ∷ "......##." ∷ ".##...##."
        ∷ "..#####.." ∷ "........." ∷ "........." ∷ "........." ∷ [])
    ∷ glyph b'6' (
        "........." ∷ "........." ∷ "........." ∷ "...###..." ∷ "..##....." ∷ ".##......"
        ∷ ".##......" ∷ ".######.." ∷ ".##...##." ∷ ".##...##." ∷ ".##...##." ∷ ".##...##."
        ∷ "..#####.." ∷ "........." ∷ "........." ∷ "........." ∷ [])
    ∷ glyph b'7' (
        "........." ∷ "........." ∷ "........." ∷ ".#######." ∷ ".##...##." ∷ "......##."
        ∷ "......##." ∷ ".....##.." ∷ "....##..." ∷ "...##...." ∷ "...##...." ∷ "...##...."
        ∷ "...##...." ∷ "........." ∷ "........." ∷ "........." ∷ [])
    ∷ glyph b'8' (
        "........." ∷ "........." ∷ "........." ∷ "..#####.." ∷ ".##...##." ∷ ".##...##."
        ∷ ".##...##." ∷ "..#####.." ∷ ".##...##." ∷ ".##...##." ∷ ".##...##." ∷ ".##...##."
        ∷ "..#####.." ∷ "........." ∷ "........." ∷ "........." ∷ [])
    ∷ glyph b'9' (
        "........." ∷ "........." ∷ "........." ∷ "..#####.." ∷ ".##...##." ∷ ".##...##."
        ∷ ".##...##." ∷ "..######." ∷ "......##." ∷ "......##." ∷ "......##." ∷ ".....##.."
        ∷ "..####..." ∷ "........." ∷ "........." ∷ "........." ∷ [])
    ∷ glyph b':' (
        "........." ∷ "........." ∷ "........." ∷ "........." ∷ "........." ∷ "........."
        ∷ "....##..." ∷ "....##..." ∷ "........." ∷ "........." ∷ "........." ∷ "....##..."
        ∷ "....##..." ∷ "........." ∷ "........." ∷ "........." ∷ [])
    ∷ []

unfoldable pub glyphs3 : List Glyph
glyphs3 =
    glyph b';' (
      "........." ∷ "........." ∷ "........." ∷ "........." ∷ "........." ∷ "........."
      ∷ "....##..." ∷ "....##..." ∷ "........." ∷ "........." ∷ "........." ∷ "....##..."
      ∷ "....##..." ∷ "...##...." ∷ "........." ∷ "........." ∷ [])
    ∷ glyph b'<' (
        "........." ∷ "........." ∷ "........." ∷ "........." ∷ ".....##.." ∷ "....##..."
        ∷ "...##...." ∷ "..##....." ∷ ".##......" ∷ "..##....." ∷ "...##...." ∷ "....##..."
        ∷ ".....##.." ∷ "........." ∷ "........." ∷ "........." ∷ [])
    ∷ glyph b'=' (
        "........." ∷ "........." ∷ "........." ∷ "........." ∷ "........." ∷ "........."
        ∷ ".#######." ∷ "........." ∷ "........." ∷ ".#######." ∷ "........." ∷ "........."
        ∷ "........." ∷ "........." ∷ "........." ∷ "........." ∷ [])
    ∷ glyph b'>' (
        "........." ∷ "........." ∷ "........." ∷ "........." ∷ ".##......" ∷ "..##....."
        ∷ "...##...." ∷ "....##..." ∷ ".....##.." ∷ "....##..." ∷ "...##...." ∷ "..##....."
        ∷ ".##......" ∷ "........." ∷ "........." ∷ "........." ∷ [])
    ∷ glyph b'?' (
        "........." ∷ "........." ∷ "........." ∷ "..#####.." ∷ ".##...##." ∷ ".##...##."
        ∷ ".....##.." ∷ "....##..." ∷ "....##..." ∷ "....##..." ∷ "........." ∷ "....##..."
        ∷ "....##..." ∷ "........." ∷ "........." ∷ "........." ∷ [])
    ∷ glyph b'@' (
        "........." ∷ "........." ∷ "........." ∷ "........." ∷ "..#####.." ∷ ".##...##."
        ∷ ".##...##." ∷ ".##.####." ∷ ".##.####." ∷ ".##.####." ∷ ".##.###.." ∷ ".##......"
        ∷ "..#####.." ∷ "........." ∷ "........." ∷ "........." ∷ [])
    ∷ glyph b'A' (
        "........." ∷ "........." ∷ "........." ∷ "....#...." ∷ "...###..." ∷ "..##.##.."
        ∷ ".##...##." ∷ ".##...##." ∷ ".#######." ∷ ".##...##." ∷ ".##...##." ∷ ".##...##."
        ∷ ".##...##." ∷ "........." ∷ "........." ∷ "........." ∷ [])
    ∷ glyph b'B' (
        "........." ∷ "........." ∷ "........." ∷ ".######.." ∷ "..##..##." ∷ "..##..##."
        ∷ "..##..##." ∷ "..#####.." ∷ "..##..##." ∷ "..##..##." ∷ "..##..##." ∷ "..##..##."
        ∷ ".######.." ∷ "........." ∷ "........." ∷ "........." ∷ [])
    ∷ glyph b'C' (
        "........." ∷ "........." ∷ "........." ∷ "...####.." ∷ "..##..##." ∷ ".##....#."
        ∷ ".##......" ∷ ".##......" ∷ ".##......" ∷ ".##......" ∷ ".##....#." ∷ "..##..##."
        ∷ "...####.." ∷ "........." ∷ "........." ∷ "........." ∷ [])
    ∷ []
