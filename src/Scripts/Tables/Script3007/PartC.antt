-- ===== src/Scripts/Tables/Script3007/PartC.antt =====
-- The functions 300 to 325 of sample-assets-small/script-0007.js, a row for each line.
use cache_server_go.Base.{List, [], ◌∷◌}
use cache_server_go.Scripts.Fn.{Fn, ◌x+◌, ◌x-◌}

unfoldable pub fns_3007_c : List Fn
fns_3007_c =
    122665 x- 92
    ∷ 358285 x- 88
    ∷ 650670 x+ 70
    ∷ 59712 x- 8
    ∷ 855290 x- 20
    ∷ 639739 x- 43
    ∷ 816610 x- 47
    ∷ 473511 x- 63
    ∷ 648478 x+ 78
    ∷ 592952 x+ 31
    ∷ 110424 x+ 77
    ∷ 569268 x- 26
    ∷ 700726 x+ 83
    ∷ 6558 x- 90
    ∷ 107460 x- 25
    ∷ 177878 x- 54
    ∷ 707581 x- 91
    ∷ 75835 x- 93
    ∷ 206520 x- 81
    ∷ 68436 x- 62
    ∷ 168648 x+ 84
    ∷ 99512 x+ 42
    ∷ 708283 x+ 18
    ∷ 217753 x+ 59
    ∷ 382355 x- 72
    ∷ 65953 x+ 38
    ∷ []
