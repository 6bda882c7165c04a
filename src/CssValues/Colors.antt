-- ===== src/CssValues/Colors.antt =====
-- lsp/helpers/css/helpers.go: the table of the named colours.
use design_tokens_language_s.Prelude.{List, [], ◌∷◌}
use design_tokens_language_s.GoString.{Bytes, ascii}

-- cssNamedColors
abbrev pub css_named_colors : List Bytes
css_named_colors =
    ascii "transparent"
    ∷ ascii "black"
    ∷ ascii "white"
    ∷ ascii "red"
    ∷ ascii "green"
    ∷ ascii "blue"
    ∷ ascii "yellow"
    ∷ ascii "cyan"
    ∷ ascii "magenta"
    ∷ ascii "gray"
    ∷ ascii "grey"
    ∷ ascii "maroon"
    ∷ ascii "purple"
    ∷ ascii "fuchsia"
    ∷ ascii "lime"
    ∷ ascii "olive"
    ∷ ascii "navy"
    ∷ ascii "teal"
    ∷ ascii "aqua"
    ∷ ascii "orange"
    ∷ ascii "aliceblue"
    ∷ ascii "antiquewhite"
    ∷ ascii "aquamarine"
    ∷ ascii "azure"
    ∷ ascii "beige"
    ∷ ascii "bisque"
    ∷ ascii "blanchedalmond"
    ∷ ascii "blueviolet"
    ∷ ascii "brown"
    ∷ ascii "burlywood"
    ∷ ascii "cadetblue"
    ∷ ascii "chartreuse"
    ∷ ascii "chocolate"
    ∷ ascii "coral"
    ∷ ascii "cornflowerblue"
    ∷ ascii "cornsilk"
    ∷ ascii "crimson"
    ∷ ascii "darkblue"
    ∷ ascii "darkcyan"
    ∷ ascii "darkgoldenrod"
    ∷ ascii "darkgray"
    ∷ ascii "darkgrey"
    ∷ ascii "darkgreen"
    ∷ ascii "darkkhaki"
    ∷ ascii "darkmagenta"
    ∷ ascii "darkolivegreen"
    ∷ ascii "darkorange"
    ∷ ascii "darkorchid"
    ∷ ascii "darkred"
    ∷ ascii "darksalmon"
    ∷ ascii "darkseagreen"
    ∷ ascii "darkslateblue"
    ∷ ascii "darkslategray"
    ∷ ascii "darkslategrey"
    ∷ ascii "darkturquoise"
    ∷ ascii "darkviolet"
    ∷ ascii "deeppink"
    ∷ ascii "deepskyblue"
    ∷ ascii "dimgray"
    ∷ ascii "dimgrey"
    ∷ ascii "dodgerblue"
    ∷ ascii "firebrick"
    ∷ ascii "floralwhite"
    ∷ ascii "forestgreen"
    ∷ ascii "gainsboro"
    ∷ ascii "ghostwhite"
    ∷ ascii "gold"
    ∷ ascii "goldenrod"
    ∷ ascii "greenyellow"
    ∷ ascii "honeydew"
    ∷ ascii "hotpink"
    ∷ ascii "indianred"
    ∷ ascii "indigo"
    ∷ ascii "ivory"
    ∷ ascii "khaki"
    ∷ ascii "lavender"
    ∷ ascii "lavenderblush"
    ∷ ascii "lawngreen"
    ∷ ascii "lemonchiffon"
    ∷ ascii "lightblue"
    ∷ ascii "lightcoral"
    ∷ ascii "lightcyan"
    ∷ ascii "lightgoldenrodyellow"
    ∷ ascii "lightgray"
    ∷ ascii "lightgrey"
    ∷ ascii "lightgreen"
    ∷ ascii "lightpink"
    ∷ ascii "lightsalmon"
    ∷ ascii "lightseagreen"
    ∷ ascii "lightskyblue"
    ∷ ascii "lightslategray"
    ∷ ascii "lightslategrey"
    ∷ ascii "lightsteelblue"
    ∷ ascii "lightyellow"
    ∷ ascii "limegreen"
    ∷ ascii "linen"
    ∷ ascii "mediumaquamarine"
    ∷ ascii "mediumblue"
    ∷ ascii "mediumorchid"
    ∷ ascii "mediumpurple"
    ∷ ascii "mediumseagreen"
    ∷ ascii "mediumslateblue"
    ∷ ascii "mediumspringgreen"
    ∷ ascii "mediumturquoise"
    ∷ ascii "mediumvioletred"
    ∷ ascii "midnightblue"
    ∷ ascii "mintcream"
    ∷ ascii "mistyrose"
    ∷ ascii "moccasin"
    ∷ ascii "navajowhite"
    ∷ ascii "oldlace"
    ∷ ascii "olivedrab"
    ∷ ascii "orangered"
    ∷ ascii "orchid"
    ∷ ascii "palegoldenrod"
    ∷ ascii "palegreen"
    ∷ ascii "paleturquoise"
    ∷ ascii "palevioletred"
    ∷ ascii "papayawhip"
    ∷ ascii "peachpuff"
    ∷ ascii "peru"
    ∷ ascii "pink"
    ∷ ascii "plum"
    ∷ ascii "powderblue"
    ∷ ascii "rosybrown"
    ∷ ascii "royalblue"
    ∷ ascii "saddlebrown"
    ∷ ascii "salmon"
    ∷ ascii "sandybrown"
    ∷ ascii "seagreen"
    ∷ ascii "seashell"
    ∷ ascii "sienna"
    ∷ ascii "silver"
    ∷ ascii "skyblue"
    ∷ ascii "slateblue"
    ∷ ascii "slategray"
    ∷ ascii "slategrey"
    ∷ ascii "snow"
    ∷ ascii "springgreen"
    ∷ ascii "steelblue"
    ∷ ascii "tan"
    ∷ ascii "thistle"
    ∷ ascii "tomato"
    ∷ ascii "turquoise"
    ∷ ascii "violet"
    ∷ ascii "wheat"
    ∷ ascii "whitesmoke"
    ∷ ascii "yellowgreen"
    ∷ []
